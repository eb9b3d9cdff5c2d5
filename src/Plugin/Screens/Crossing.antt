-- ===== src/Plugin/Screens/Crossing.antt =====
-- A console that crosses the wire (plugin/conv.go).
use doze_sdk.Plugin.Screens.{
  column_to_proto, column_from_proto, panel_to_proto, panel_from_proto, fields_to_proto,
  fields_from_proto, node_to_proto, nodes_to_proto, node_from_message, nodes_from_proto,
  tab_to_proto, tab_from_proto, extension_to_proto, extension_from_proto, console_spec_to_proto,
  console_spec_from_proto,
}
use doze_sdk.Engine.Services.{Column, Panel, NodeFields, Node, Nodes, Tab, Extension, ConsoleSpec}
use doze_sdk.Prelude.{All, IsInt32, List, [], map, map_inverse, refl, some, to_int32_same, ◌∷◌, ◌≡◌}

-- Every weight in the tree is an int32.
unfoldable mutual
  pub Light : Node → Type 0
  Light (Node.node n children) = IsInt32 n.weight × AllLight children

  pub AllLight : Nodes → Type 0
  AllLight Nodes.no_nodes = Unit
  AllLight (Nodes.more_nodes n ns) = Light n × AllLight ns

fields_inverse : (n : NodeFields) → IsInt32 n.weight → fields_from_proto (fields_to_proto n) ≡ n
unfolding fields_from_proto fields_to_proto
fields_inverse n h = rw (to_int32_same n.weight h) refl

unfoldable mutual
  unfolding node_from_message node_to_proto nodes_from_proto nodes_to_proto Light AllLight

  node_inverse : (n : Node) → Light n → node_from_message (node_to_proto n) ≡ n
  node_inverse (Node.node n children) h = rw (fields_inverse n h.0, nodes_inverse children h.1) refl

  nodes_inverse : (ns : Nodes) → AllLight ns → nodes_from_proto (nodes_to_proto ns) ≡ ns
  nodes_inverse Nodes.no_nodes h = refl
  nodes_inverse (Nodes.more_nodes n ns) h = rw (node_inverse n h.0, nodes_inverse ns h.1) refl

columns_inverse : (cs : List Column) → map column_from_proto (map column_to_proto cs) ≡ cs
unfolding column_from_proto column_to_proto
columns_inverse [] = refl
columns_inverse (c ∷ cs) = rw (columns_inverse cs) refl

panel_inverse : (p : Panel) → panel_from_proto (panel_to_proto p) ≡ p
unfolding panel_from_proto panel_to_proto
panel_inverse p = rw (columns_inverse p.columns) refl

tab_inverse : (t : Tab) → Light t.body → tab_from_proto (tab_to_proto t) ≡ t
unfolding tab_from_proto tab_to_proto
tab_inverse t h = rw (node_inverse t.body h) refl

extension_inverse : (e : Extension) → Light e.node → extension_from_proto (extension_to_proto e) ≡ e
unfolding extension_from_proto extension_to_proto
extension_inverse e h = rw (node_inverse e.node h) refl

all_unit : (ps : List Panel) → All (λ (p : Panel). Unit {0}) ps
all_unit [] = tt
all_unit (p ∷ ps) = (tt, all_unit ps)

-- A console, with its panels and the whole trees of its tabs and extensions, crosses the wire
-- unchanged if every weight in it is an int32.
pub console_spec_from_proto-console_spec_to_proto :
    (s : ConsoleSpec)
    → All (λ (t : Tab). Light t.body) s.tabs
    → All (λ (e : Extension). Light e.node) s.extend
    → console_spec_from_proto (some (console_spec_to_proto s)) ≡ s
unfolding console_spec_from_proto console_spec_to_proto
console_spec_from_proto-console_spec_to_proto s tabs extend =
    rw
      (
        map_inverse panel_to_proto panel_from_proto (λ p. Unit) (λ p u. panel_inverse p) s.panels
            (all_unit s.panels),
        map_inverse tab_to_proto tab_from_proto (λ t. Light t.body) tab_inverse s.tabs tabs,
        map_inverse extension_to_proto extension_from_proto (λ e. Light e.node) extension_inverse
            s.extend extend,
      )
      refl
