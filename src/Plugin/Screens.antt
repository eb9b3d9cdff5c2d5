-- ===== src/Plugin/Screens.antt =====
-- plugin/conv.go, the console: consoleSpecToProto, consoleSpecFromProto and the recursion over nodes.
pub mod Crossing
use doze_sdk.Engine.Services.{Column, Panel, NodeFields, Node, Nodes, Tab, Extension, ConsoleSpec}
use doze_sdk.Modindex.Select.{select}
use doze_sdk.Prelude.{Option, [], map, none, pos, some, to_int32}
use doze_sdk.Plugin.ProtoConsole
use doze_sdk.Plugin.ProtoConsole.{ConsoleNode, ConsoleNodes, ConsoleNodeFields}

unfoldable pub column_to_proto : Column → ProtoConsole.ConsoleColumn
column_to_proto c = record { key = c.key; title = c.title; align = c.align; role = c.role }

unfoldable pub column_from_proto : ProtoConsole.ConsoleColumn → Column
column_from_proto c = record { key = c.key; title = c.title; align = c.align; role = c.role }

unfoldable pub panel_to_proto : Panel → ProtoConsole.ConsolePanel
panel_to_proto p = record {
  id = p.id;
  title = p.title;
  kind = p.kind;
  source = p.source;
  columns = map column_to_proto p.columns;
  select = p.select;
}

unfoldable pub panel_from_proto : ProtoConsole.ConsolePanel → Panel
panel_from_proto p = record {
  id = p.id;
  title = p.title;
  kind = p.kind;
  source = p.source;
  columns = map column_from_proto p.columns;
  select = p.select;
}

unfoldable pub fields_to_proto : NodeFields → ConsoleNodeFields
fields_to_proto n = record {
  kind = n.kind;
  id = n.id;
  title = n.title;
  weight = to_int32 n.weight;
  panel = n.panel;
  from = n.from;
  text = n.text;
  actions = n.actions;
}

unfoldable pub fields_from_proto : ConsoleNodeFields → NodeFields
fields_from_proto n = record {
  kind = n.kind;
  id = n.id;
  title = n.title;
  weight = n.weight;
  panel = n.panel;
  from = n.from;
  text = n.text;
  actions = n.actions;
}

-- nodeToProto, with its loop over the children
unfoldable mutual
  pub node_to_proto : Node → ConsoleNode
  node_to_proto (Node.node n children) =
      ConsoleNode.node (fields_to_proto n) (nodes_to_proto children)

  pub nodes_to_proto : Nodes → ConsoleNodes
  nodes_to_proto Nodes.no_nodes = ConsoleNodes.no_nodes
  nodes_to_proto (Nodes.more_nodes n ns) =
      ConsoleNodes.more_nodes (node_to_proto n) (nodes_to_proto ns)

-- nodeFromProto of a message that is there, with its loop over the children
unfoldable mutual
  pub node_from_message : ConsoleNode → Node
  node_from_message (ConsoleNode.node n children) =
      Node.node (fields_from_proto n) (nodes_from_proto children)

  pub nodes_from_proto : ConsoleNodes → Nodes
  nodes_from_proto ConsoleNodes.no_nodes = Nodes.no_nodes
  nodes_from_proto (ConsoleNodes.more_nodes n ns) =
      Nodes.more_nodes (node_from_message n) (nodes_from_proto ns)

abbrev pub zero_fields : NodeFields
zero_fields = record {
  kind = [];
  id = [];
  title = [];
  weight = pos 0;
  panel = [];
  from = [];
  text = [];
  actions = [];
}

-- nodeFromProto
unfoldable pub node_from_proto : Option ConsoleNode → Node
node_from_proto none = Node.node zero_fields Nodes.no_nodes
node_from_proto (some n) = node_from_message n

unfoldable pub tab_to_proto : Tab → ProtoConsole.ConsoleTab
tab_to_proto t = record { id = t.id; title = t.title; body = some (node_to_proto t.body) }

unfoldable pub tab_from_proto : ProtoConsole.ConsoleTab → Tab
unfolding node_from_proto
tab_from_proto t = record { id = t.id; title = t.title; body = node_from_proto t.body }

unfoldable pub extension_to_proto : Extension → ProtoConsole.ConsoleExtension
extension_to_proto e = record { after = e.after; node = some (node_to_proto e.node) }

unfoldable pub extension_from_proto : ProtoConsole.ConsoleExtension → Extension
unfolding node_from_proto
extension_from_proto e = record { after = e.after; node = node_from_proto e.node }

-- consoleSpecToProto
unfoldable pub console_spec_to_proto : ConsoleSpec → ProtoConsole.ConsoleSpec
console_spec_to_proto s = record {
  front = s.front;
  web_url = s.web_url;
  panels = map panel_to_proto s.panels;
  tabs = map tab_to_proto s.tabs;
  extend = map extension_to_proto s.extend;
}

abbrev pub empty_console : ConsoleSpec
empty_console = record { front = []; web_url = []; panels = []; tabs = []; extend = [] }

-- consoleSpecFromProto
unfoldable pub console_spec_from_proto : Option ProtoConsole.ConsoleSpec → ConsoleSpec
console_spec_from_proto none = empty_console
console_spec_from_proto (some s) = record {
  front = s.front;
  web_url = s.web_url;
  panels = map panel_from_proto s.panels;
  tabs = map tab_from_proto s.tabs;
  extend = map extension_from_proto s.extend;
}
