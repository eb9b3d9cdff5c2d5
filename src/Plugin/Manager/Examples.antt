-- ===== src/Plugin/Manager/Examples.antt =====
-- Calls of a Manager at concrete inputs.
use doze_sdk.Plugin.Manager.Tidy.{IsTidy}
use doze_sdk.Plugin.Manager.Calls.{
  Call, after_call, after_calls, after_calls-IsTidy, close-after_calls, launch_error-driver,
  driver_again, ask,
}
use doze_sdk.Plugin.Manager.{
  Resolver, new_manager, World, launching, relaunch, driver, launch_error, close,
}
use doze_sdk.Plugin.Adapter.{answer}
use doze_sdk.Prelude.{
  In, List, [], codes, delete, false, if◌then◌else◌, insert, keep, lookup, none, refl, some,
  text_eq, true, ◌∷◌, ◌≡◌, text_key, int_key,
}

abbrev modules : Resolver
modules eng = if text_eq eng (codes "httpd") then some (codes "/cache/httpd", none) else none

abbrev good_day : World
good_day = record { alive = λ h. true; launch = λ path env. none }

abbrev bad_day : World
bad_day = record { alive = λ h. false; launch = λ path env. some (codes "handshake failed") }

abbrev calls : List Call
calls =
    ask modules good_day (codes "httpd")
    ∷ ask modules bad_day (codes "httpd")
    ∷ ask modules good_day (codes "pg")
    ∷ []

after_calls-IsTidy_example : IsTidy (after_calls calls new_manager)
after_calls-IsTidy_example = after_calls-IsTidy calls

close-after_calls_example :
    let m = close (after_calls calls new_manager) in (m.hosts ≡ []) × (m.running ≡ [])
close-after_calls_example = close-after_calls calls

launch_error-driver_example :
    let m = after_calls calls new_manager in
    let (answer, later) = driver modules bad_day (codes "httpd") m in
    launch_error (codes "httpd") later ≡ (
      if text_eq (codes "httpd") (codes "httpd")
      then answer.error
      else launch_error (codes "httpd") m)
launch_error-driver_example =
    launch_error-driver calls modules bad_day (codes "httpd") (codes "httpd")

first_host :
    (driver modules good_day (codes "httpd") (after_calls calls new_manager)).0.host ≡ some 1
unfolding driver after_calls after_call relaunch lookup delete insert keep text_eq
first_host = refl

driver_again_example :
    let m' = (driver modules good_day (codes "httpd") (after_calls calls new_manager)).1 in
    In 1 m'.running
    × (driver modules good_day (codes "httpd") m'
        ≡ (record { host = some 1; found = true; error = none }, m'))
driver_again_example =
    driver_again calls modules good_day good_day (codes "httpd") 1 first_host refl

-- What a launch that failed left, and what the next one repairs.
failed_launch :
    launch_error (codes "httpd") (after_calls calls new_manager)
    ≡ some (launching (codes "httpd") (codes "handshake failed"))
unfolding launch_error after_calls after_call driver relaunch lookup delete insert keep text_eq
failed_launch = refl
