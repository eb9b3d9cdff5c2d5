-- ===== src/Binaries/Cache/Examples.antt =====
-- The caches at concrete inputs: archives that are their own trees and digests.
use doze_sdk.Binaries.Cache.Calls.{
  Setting, Request, called, wanted_dir, wanted_digest, after_requests, new_state, called-Delivered,
  artifact,
}
use doze_sdk.Binaries.Cache.{
  Tools, Entry, Placing, State, verify_sig, cached, checked, signed, unpacked, accepted, verified,
  placed, ensure_archive, ready_entry, ensure_artifact,
}
use doze_sdk.Binaries.Mirror.{Settings, Outside, get_url}
use doze_sdk.Binaries.Download.{
  Unpacker, Steps, source_of, stream_to, archive_root, matches, received, unpacked_at, put,
  have_entry, cached_download, finish, ensure_download,
}
use doze_sdk.Strings.{cut_prefix, join}
use doze_sdk.Prelude.{
  List, Map, Text, [], codes, delete, err, inl, insert, lookup, none, ok, refl, some, text_eq, true,
  ◌∷◌, ◌≡◌, text_key, int_key,
}
use doze_sdk.Binaries.Download
use doze_sdk.Binaries.Download.Sound.{ensure_download-Delivered, after_downloads, Asked}
use doze_sdk.Binaries.Cache.Sound.{Delivered}

abbrev plain_tools : Tools Text
plain_tools = record {
  join = λ parts. join (codes "/") parts;
  sha_hex = λ t. t;
  decode64 = λ s. ok s;
  verify = λ key sha sig. text_eq sig sha;
  extract = λ t. ok t;
  normalize = λ t. some t;
  has_bin = λ t. true;
}

abbrev plain_unpacker : Unpacker Text
plain_unpacker = record {
  join = λ parts. join (codes "/") parts;
  sha_hex = λ t. t;
  key_hex = λ t. t;
  unpack = λ bytes url. ok bytes;
  only_dir = λ t. none;
}

abbrev web : Outside
web = record {
  getenv = λ name. [];
  to_upper = λ t. t;
  read_file = λ path. err (codes "no such file");
  http_get = λ url. ok (record { code = 200; status = codes "200 OK"; body = ok (codes "ab") });
  unmarshal = λ body. err (codes "not YAML");
}

abbrev smooth : Placing
smooth = record { recorded = λ digest. digest; mkdir = none; rename = none }

abbrev smooth_steps : Steps
smooth_steps = record {
  mkdir_parent = none;
  mkdir_tmp = none;
  create = none;
  close = none;
  mkdir_root = none;
  recorded = λ digest. digest;
  rename = none;
}

abbrev signed_home : Settings
signed_home = record { home = codes "/h"; mirror_root = []; signing_key = some (codes "key") }

abbrev here : Setting
here = record { settings = signed_home; outside = web; placing = smooth }

abbrev fetch_it : Request
fetch_it =
    artifact (codes "httpd") (codes "1") (codes "a") (codes "http://x") [] (codes "ab")
      (codes "sha256:ab")

abbrev first_calls : List (Setting × Request)
first_calls = (here, fetch_it) ∷ []

abbrev bin_of_httpd : Text
bin_of_httpd = codes "/h/httpd/1-a/bin"

abbrev cached_state : State Text
cached_state = record {
  manifests = [];
  cache = (codes "/h/httpd/1-a", record { tree = codes "ab"; recorded = codes "sha256:ab" }) ∷ [];
}

fetched_first :
    called plain_tools here fetch_it (new_state plain_tools)
    ≡ (ok (bin_of_httpd, codes "sha256:ab"), cached_state)
unfolding called ensure_artifact ensure_archive ready_entry placed verified accepted checked signed
    verify_sig unpacked get_url lookup insert delete text_eq join cut_prefix
fetched_first = refl

hit_next :
    called plain_tools here fetch_it
      (after_requests plain_tools first_calls (new_state plain_tools))
    ≡ (ok (bin_of_httpd, codes "sha256:ab"), cached_state)
unfolding after_requests called ensure_artifact ensure_archive cached ready_entry placed verified
    accepted checked signed verify_sig unpacked get_url lookup insert delete text_eq join cut_prefix
hit_next = refl

called-Delivered_example :
    Delivered plain_tools
      (wanted_dir plain_tools here fetch_it)
      (wanted_digest plain_tools fetch_it)
      bin_of_httpd
      (codes "sha256:ab")
      cached_state.cache
called-Delivered_example =
    called-Delivered plain_tools first_calls here fetch_it bin_of_httpd (codes "sha256:ab")
      cached_state ((λ d. inl refl), tt) hit_next

abbrev one_download : Asked
one_download = record {
  outside = web;
  steps = smooth_steps;
  url = codes "http://y";
  expected = codes "sha256:ab";
}

abbrev downloaded : Map Text (Entry Text)
downloaded =
    (codes "/h/downloads/http://y", record { tree = codes "ab"; recorded = codes "sha256:ab" }) ∷ []

download_next :
    ensure_download plain_unpacker
      (codes "/h")
      web
      smooth_steps
      (codes "http://y")
      (codes "sha256:ab")
      (after_downloads plain_unpacker (codes "/h") (one_download ∷ []) [])
    ≡ (ok (codes "/h/downloads/http://y/root", codes "sha256:ab"), downloaded)
unfolding after_downloads ensure_download have_entry cached_download unpacked_at received stream_to
    source_of matches finish put archive_root lookup insert delete text_eq join cut_prefix
download_next = refl

ensure_download-Delivered_example :
    Download.Received.Delivered plain_unpacker
      (codes "/h/downloads/http://y")
      (codes "sha256:ab")
      (codes "/h/downloads/http://y/root")
      (codes "sha256:ab")
      downloaded
unfolding join
ensure_download-Delivered_example =
    ensure_download-Delivered plain_unpacker (codes "/h") (one_download ∷ []) one_download
      (codes "/h/downloads/http://y/root") (codes "sha256:ab") downloaded ((λ d. inl refl), tt)
      download_next
