-- ===== src/Console/Drawn.antt =====
-- What the calls of console/console.go build, against what a module wrote.
use doze_sdk.Console.{
  Block, actions, after, assign, blank, block, chart, col, container, detail, from, id, nodes_of,
  note, row, stat, stream, tab, table, title, weight,
}
use doze_sdk.Engine.Services.{NodeFields, Node, Nodes}
use doze_sdk.Prelude.{ℤ, List, Text, [], ◌∷◌, ◌≡◌, ◌∙◌, ap, codes, pos, refl}

-- The blocks that draw a panel
pub data Drawing : Type 0 where
  as_table : Drawing
  as_stat : Drawing
  as_detail : Drawing
  as_stream : Drawing
  as_chart : Drawing

-- The calls of Weight, Title, ID and From on a block
pub data Setting : Type 0 where
  set_weight : ℤ → Setting
  set_title : Text → Setting
  set_id : Text → Setting
  set_from : Text → Setting

-- An expression that a module writes: a piece, with the calls on it in their order
mutual
  pub data Layout : Type 0 where
    written : Piece → List Setting → Layout

  pub data Piece : Type 0 where
    shows : Drawing → Text → Piece
    acts : List Text → Piece
    says : Text → Piece
    across : Layouts → Piece
    down : Layouts → Piece

  pub data Layouts : Type 0 where
    no_layouts : Layouts
    more_layouts : Layout → Layouts → Layouts

unfoldable draw : Drawing → Text → Block
draw as_table p = table p
draw as_stat p = stat p
draw as_detail p = detail p
draw as_stream p = stream p
draw as_chart p = chart p

unfoldable settle : Block → List Setting → Block
settle b [] = b
settle b (set_weight w ∷ cs) = settle (weight b w) cs
settle b (set_title t ∷ cs) = settle (title b t) cs
settle b (set_id i ∷ cs) = settle (id b i) cs
settle b (set_from t ∷ cs) = settle (from b t) cs

-- The expression, evaluated with the calls of the package
unfoldable mutual
  unfolding draw settle

  pub compose : Layout → Block
  compose (written p cs) = settle (compose_piece p) cs

  compose_piece : Piece → Block
  compose_piece (shows d p) = draw d p
  compose_piece (acts ids) = actions ids
  compose_piece (says t) = note t
  compose_piece (across ls) = row (compose_all ls)
  compose_piece (down ls) = col (compose_all ls)

  compose_all : Layouts → List Block
  compose_all no_layouts = []
  compose_all (more_layouts l ls) = compose l ∷ compose_all ls

-- The last weight that is set, or what it was; and so on
unfoldable last_weight : ℤ → List Setting → ℤ
last_weight old [] = old
last_weight old (set_weight w ∷ cs) = last_weight w cs
last_weight old (_ ∷ cs) = last_weight old cs

unfoldable last_title : Text → List Setting → Text
last_title old [] = old
last_title old (set_title t ∷ cs) = last_title t cs
last_title old (_ ∷ cs) = last_title old cs

unfoldable last_id : Text → List Setting → Text
last_id old [] = old
last_id old (set_id i ∷ cs) = last_id i cs
last_id old (_ ∷ cs) = last_id old cs

unfoldable last_from : Text → List Setting → Text
last_from old [] = old
last_from old (set_from t ∷ cs) = last_from t cs
last_from old (_ ∷ cs) = last_from old cs

abbrev drawing_name : Drawing → Text
drawing_name as_table = codes "table"
drawing_name as_stat = codes "stat"
drawing_name as_detail = codes "detail"
drawing_name as_stream = codes "stream"
drawing_name as_chart = codes "chart"

abbrev kind_of : Piece → Text
kind_of (shows d p) = drawing_name d
kind_of (acts ids) = codes "actions"
kind_of (says t) = codes "note"
kind_of (across ls) = codes "row"
kind_of (down ls) = codes "col"

abbrev panel_of : Piece → Text
panel_of (shows d p) = p
panel_of _ = []

abbrev text_of : Piece → Text
text_of (says t) = t
text_of _ = []

abbrev actions_of : Piece → List Text
actions_of (acts ids) = ids
actions_of _ = []

-- The fields of the node that a module means
abbrev fields_of : Piece → List Setting → NodeFields
fields_of p cs = record {
  kind = kind_of p;
  id = last_id [] cs;
  title = last_title [] cs;
  weight = last_weight (pos 0) cs;
  panel = panel_of p;
  from = last_from [] cs;
  text = text_of p;
  actions = actions_of p;
}

-- The node that a module means
unfoldable mutual
  unfolding last_weight last_title last_id last_from

  pub meant : Layout → Node
  meant (written p cs) = Node.node (fields_of p cs) (children_of p)

  children_of : Piece → Nodes
  children_of (across ls) = all_meant ls
  children_of (down ls) = all_meant ls
  children_of (shows d p) = Nodes.no_nodes
  children_of (acts ids) = Nodes.no_nodes
  children_of (says t) = Nodes.no_nodes

  all_meant : Layouts → Nodes
  all_meant no_layouts = Nodes.no_nodes
  all_meant (more_layouts l ls) = Nodes.more_nodes (meant l) (all_meant ls)

abbrev settled : NodeFields → List Setting → NodeFields
settled f cs = record f {
  id = last_id f.id cs;
  title = last_title f.title cs;
  weight = last_weight f.weight cs;
  from = last_from f.from cs;
}

settle_lem :
    (f : NodeFields) (ns : Nodes) (cs : List Setting)
    → (settle (record { n = Node.node f ns }) cs).n ≡ Node.node (settled f cs) ns
unfolding settle weight title id from assign last_weight last_title last_id last_from
settle_lem f ns [] = refl
settle_lem f ns (set_weight w ∷ cs) = settle_lem (record f { weight = w }) ns cs
settle_lem f ns (set_title t ∷ cs) = settle_lem (record f { title = t }) ns cs
settle_lem f ns (set_id i ∷ cs) = settle_lem (record f { id = i }) ns cs
settle_lem f ns (set_from t ∷ cs) = settle_lem (record f { from = t }) ns cs

draw_lem :
    (d : Drawing) (p : Text) → (draw d p).n ≡ Node.node (fields_of (shows d p) []) Nodes.no_nodes
unfolding draw table stat detail stream chart block blank last_weight last_title last_id last_from
draw_lem as_table p = refl
draw_lem as_stat p = refl
draw_lem as_detail p = refl
draw_lem as_stream p = refl
draw_lem as_chart p = refl

mutual
  unfolding compose compose_piece compose_all meant children_of all_meant actions note row col
      container block blank assign nodes_of last_weight last_title last_id last_from

  compose_lem : (l : Layout) → (compose l).n ≡ meant l
  compose_lem (written p cs) =
      ap (λ n. (settle (record { n = n }) cs).n) (compose_piece_lem p)
      ∙ settle_lem (fields_of p []) (children_of p) cs

  compose_piece_lem : (p : Piece) → (compose_piece p).n ≡ Node.node (fields_of p []) (children_of p)
  compose_piece_lem (shows d p) = draw_lem d p
  compose_piece_lem (acts ids) = refl
  compose_piece_lem (says t) = refl
  compose_piece_lem (across ls) = rw (compose_all_lem ls) refl
  compose_piece_lem (down ls) = rw (compose_all_lem ls) refl

  compose_all_lem : (ls : Layouts) → nodes_of (compose_all ls) ≡ all_meant ls
  compose_all_lem no_layouts = refl
  compose_all_lem (more_layouts l ls) = rw (compose_lem l, compose_all_lem ls) refl

-- Whatever expression a module writes with the calls of the package, Tab and After give the tab and
-- the extension with the names that they are given and the node that is meant: every block has the kind
-- of its call, with the panel, the text or the actions that the call names and nothing else; a row or a
-- column has its children in their order; and a weight, a title, an ID or a table to follow is the last
-- that was set on the block, or none.
pub compose-meant :
    (l : Layout) (name heading slot : Text)
    → (tab name heading (compose l) ≡ record { id = name; title = heading; body = meant l })
      × (after slot (compose l) ≡ record { after = slot; node = meant l })
unfolding tab after
compose-meant l name heading slot = (
  ap (λ (n : Node). record { id = name; title = heading; body = n }) (compose_lem l),
  ap (λ (n : Node). record { after = slot; node = n }) (compose_lem l),
)
