-- ===== src/Console/Examples.antt =====
-- The layout that console/console_test.go builds.
use doze_sdk.Console.{
  Block, actions, after, assign, blank, block, col, container, detail, from, nodes_of, row, stat,
  tab, table, title, weight,
}
use doze_sdk.Console.Drawn.{
  Layout, acts, as_detail, compose, compose-meant, down, meant, more_layouts, no_layouts, set_from,
  set_title, shows, written,
}
use doze_sdk.Engine.Services.{NodeFields, Node, Nodes}
use doze_sdk.Prelude.{Text, [], ◌∷◌, ◌≡◌, codes, pos, refl}

abbrev sessions : Block
sessions = weight (table (codes "sessions")) (pos 2)

abbrev query : Block
query = title (from (detail (codes "sessions")) (codes "sessions")) (codes "query")

abbrev right_side : Block
right_side = col (query ∷ actions (codes "cancel" ∷ []) ∷ [])

abbrev activity : Block
activity = col (stat (codes "activity") ∷ row (sessions ∷ right_side ∷ []) ∷ [])

abbrev leaf : Text → Text → NodeFields
leaf kind panel = record {
  kind = kind;
  id = [];
  title = [];
  weight = pos 0;
  panel = panel;
  from = [];
  text = [];
  actions = [];
}

abbrev two : Node → Node → Nodes
two m n = Nodes.more_nodes m (Nodes.more_nodes n Nodes.no_nodes)

the_layout :
    activity.n
    ≡ Node.node (leaf (codes "col") []) (
        two (Node.node (leaf (codes "stat") (codes "activity")) Nodes.no_nodes) (
          Node.node (leaf (codes "row") []) (
            two
              (Node.node
                (record (leaf (codes "table") (codes "sessions")) { weight = pos 2 })
                Nodes.no_nodes)
              (Node.node (leaf (codes "col") []) (
                two
                  (Node.node
                    (record (leaf (codes "detail") (codes "sessions")) {
                      from = codes "sessions";
                      title = codes "query";
                    })
                    Nodes.no_nodes)
                  (Node.node
                    (record (leaf (codes "actions") []) { actions = codes "cancel" ∷ [] })
                    Nodes.no_nodes))))))
unfolding actions assign blank block col container detail from nodes_of row stat table title weight
the_layout = refl

-- The right side of it, as an expression
abbrev right_layout : Layout
right_layout =
    written
      (down (
        more_layouts
          (written (shows as_detail (codes "sessions"))
            (set_from (codes "sessions") ∷ set_title (codes "query") ∷ []))
          (more_layouts (written (acts (codes "cancel" ∷ [])) []) no_layouts)))
      []

compose-meant_example :
    (tab (codes "activity") (codes "queries") (compose right_layout)
      ≡ record { id = codes "activity"; title = codes "queries"; body = meant right_layout })
    × (after (codes "vitals") (compose right_layout)
        ≡ record { after = codes "vitals"; node = meant right_layout })
compose-meant_example =
    compose-meant right_layout (codes "activity") (codes "queries") (codes "vitals")
