-- ===== src/Commands.antt =====
-- The commands (cmd): which program runs, and how each starts.
pub mod Controller
pub mod Started
pub mod Daemons
use kube_combo.Prelude.{String, List, [], ◌∷◌, if◌then◌else◌, ◌==◌, bool_eq, nat_eq, string_eq}
use kube_combo.Prelude.{option_eq, list_eq}
use kube_combo.Text.Words.{split}

pub data Command : Type 0 where
  controller : Command
  pinger : Command
  debugger : Command
  unknown : String → Command

last_part : List String → String
last_part [] = ""
last_part (part ∷ []) = part
last_part (part ∷ next ∷ parts) = last_part (next ∷ parts)

-- `filepath.Base` of a path that is not empty and does not end in a slash.
unfoldable pub base : String → String
unfolding last_part
base path = last_part (split b'/' path)

-- The switch of `main` on the name of the program.
unfoldable pub command_of : String → Command
unfolding base
command_of path =
    let cmd = base path in
    if cmd == "controller"
    then Command.controller
    else if cmd == "pinger"
    then Command.pinger
    else if cmd == "debugger"
    then Command.debugger
    else Command.unknown cmd
