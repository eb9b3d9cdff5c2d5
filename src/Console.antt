-- ===== src/Console.antt =====
-- console/console.go: the blocks of which a module builds the tabs of its console.
pub mod Drawn
mod Examples
use doze_sdk.Engine.Services.{NodeFields, Node, Nodes, Tab, Extension}
use doze_sdk.Prelude.{ℤ, List, Text, [], ◌∷◌, codes, pos}

-- Block
pub record Block : Type 0 where
  pub n : Node

-- engine.Node{Kind: kind, Panel: panel}, without the children
unfoldable pub blank : Text → Text → NodeFields
blank kind panel = record {
  kind = kind;
  id = [];
  title = [];
  weight = pos 0;
  panel = panel;
  from = [];
  text = [];
  actions = [];
}

-- An assignment to a field of b.n
unfoldable pub assign : (NodeFields → NodeFields) → Node → Node
assign f (Node.node n children) = Node.node (f n) children

-- Weight
unfoldable pub weight : Block → ℤ → Block
weight b w = record { n = assign (λ n. record n { weight = w }) b.n }

-- Title
unfoldable pub title : Block → Text → Block
title b t = record { n = assign (λ n. record n { title = t }) b.n }

-- ID
unfoldable pub id : Block → Text → Block
id b i = record { n = assign (λ n. record n { id = i }) b.n }

-- From
unfoldable pub from : Block → Text → Block
from b table = record { n = assign (λ n. record n { from = table }) b.n }

unfoldable pub block : Text → Text → Block
block kind panel = record { n = Node.node (blank kind panel) Nodes.no_nodes }

unfoldable pub table : Text → Block
table panel = block (codes "table") panel

unfoldable pub stat : Text → Block
stat panel = block (codes "stat") panel

unfoldable pub detail : Text → Block
detail panel = block (codes "detail") panel

unfoldable pub stream : Text → Block
stream panel = block (codes "stream") panel

unfoldable pub chart : Text → Block
chart panel = block (codes "chart") panel

unfoldable pub actions : List Text → Block
actions ids =
    let b = block (codes "actions") [] in
    record { n = assign (λ n. record n { actions = ids }) b.n }

unfoldable pub note : Text → Block
note text =
    let b = block (codes "note") [] in record { n = assign (λ n. record n { text = text }) b.n }

-- The loop of container
unfoldable pub nodes_of : List Block → Nodes
nodes_of [] = Nodes.no_nodes
nodes_of (c ∷ cs) = Nodes.more_nodes c.n (nodes_of cs)

unfoldable pub container : Text → List Block → Block
container kind children = record { n = Node.node (blank kind []) (nodes_of children) }

unfoldable pub row : List Block → Block
row children = container (codes "row") children

unfoldable pub col : List Block → Block
col children = container (codes "col") children

unfoldable pub tab : Text → Text → Block → Tab
tab id title body = record { id = id; title = title; body = body.n }

unfoldable pub after : Text → Block → Extension
after slot block = record { after = slot; node = block.n }
