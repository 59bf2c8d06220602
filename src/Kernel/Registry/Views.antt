-- ===== src/Kernel/Registry/Views.antt =====
-- src/kernel/registry/mod.rs: what the registry tells the model and the user.
use mistake_agent.Prelude.{Option, none, some, List, [], ◌∷◌, ◌++◌, map, find, retain, lookup}
use mistake_agent.Relay.Text.{Text, same_text}
use mistake_agent.Kernel.Contract.{
  CallerPolicy, user_only, is_user_only, ToolDef, CommandDef, Info, full_to_wire, full_name,
}
use mistake_agent.Kernel.Registry.{
  EntryKind, tool_entry, command_entry, RegisteredEntry, PluginEntry, Registry,
}
use mistake_agent.Prelude.{not}

pub record ToolSchema : Type 0 where
  pub name : Text
  pub description : Text
  pub input_schema : Text

abbrev icon_of : Option RegisteredEntry → Option Text
icon_of none = none
icon_of (some e) = e.icon

unfoldable pub entry_icon : Text → Registry → Option Text
entry_icon full r = icon_of (lookup same_text full r.targets.handlers)

abbrev or_name : Text → Option Text → Text
or_name name none = name
or_name name (some title) = title

abbrev title_of_tool : Option ToolDef → Option Text
title_of_tool none = none
title_of_tool (some t) = some (or_name t.name t.title)

abbrev title_of_command : Option CommandDef → Option Text
title_of_command none = none
title_of_command (some c) = some (or_name c.name c.title)

abbrev or_else : Option Text → Option Text → Option Text
or_else none o = o
or_else (some t) o = some t

abbrev title_in : Text → Info → Option Text
title_in full info =
    or_else
      (title_of_tool (find (λ t. same_text (full_name info.namespace t.name) full) info.tools))
      (title_of_command
        (find (λ c. same_text (full_name info.namespace c.name) full) info.commands))

abbrev first_title : Text → List (Text × PluginEntry) → Option Text
first_title full [] = none
first_title full (e ∷ es) = or_else (title_in full e.1.info) (first_title full es)

unfoldable pub entry_title : Text → Registry → Option Text
entry_title full r = first_title full r.entries

abbrev pub schema_of : Text → ToolDef → ToolSchema
schema_of namespace t = record {
  name = full_to_wire (full_name namespace t.name);
  description = t.description;
  input_schema = t.params;
}

-- The tools of one plugin that the model may call.
abbrev pub tools_shown : Info → List ToolSchema
tools_shown info =
    map (schema_of info.namespace) (retain (λ t. not (is_user_only t.policy)) info.tools)

abbrev pub shown : List (Text × PluginEntry) → List ToolSchema
shown [] = []
shown (e ∷ es) = tools_shown e.1.info ++ shown es

unfoldable pub model_tools : Registry → List ToolSchema
model_tools r = shown r.entries

-- The JSON object of an entry that the user can call.
pub record UserEntry : Type 0 where
  pub entry : Text
  pub kind : EntryKind
  pub title : Option Text
  pub group : Option Text
  pub policy : CallerPolicy
  pub description : Text
  pub icon : Option Text
  pub params : Text

abbrev entry_of_tool : Text → ToolDef → UserEntry
entry_of_tool namespace t = record {
  entry = full_name namespace t.name;
  kind = tool_entry;
  title = t.title;
  group = t.group;
  policy = t.policy;
  description = t.description;
  icon = t.icon;
  params = t.params;
}

abbrev entry_of_command : Text → CommandDef → UserEntry
entry_of_command namespace c = record {
  entry = full_name namespace c.name;
  kind = command_entry;
  title = c.title;
  group = c.group;
  policy = user_only;
  description = c.description;
  icon = c.icon;
  params = c.params;
}

abbrev visible : List (Text × PluginEntry) → List UserEntry
visible [] = []
visible (e ∷ es) =
    map (entry_of_tool e.1.info.namespace) (retain (λ t. t.user_visible) e.1.info.tools)
    ++ map (entry_of_command e.1.info.namespace) (retain (λ c. c.user_visible) e.1.info.commands)
    ++ visible es

unfoldable pub user_entries : Registry → List UserEntry
user_entries r = visible r.entries
