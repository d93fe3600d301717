-- ===== src/Tasks/Closing.antt =====
-- The debugger's run with the files and the posts of internal/util: what it leaves open.
use kube_combo.Prelude.{ℕ, String, Option, none, some, List, ◌>>=◌, pure, Result, ok, err, Keeps}
use kube_combo.Prelude.{IsPreorder, pure-Keeps, >>=-Keeps, bool_eq, nat_eq, string_eq, option_eq}
use kube_combo.Prelude.{list_eq}
use kube_combo.Util.Files.{Files, check_file_existence}
use kube_combo.Util.Http.{Http, post_json_string}
use kube_combo.Util.Closed.{SameOpen, SameOpen-IsPreorder}
use kube_combo.Util.Posted.{IsHttpCounted, post_json_string-SameOpen}
use kube_combo.Tasks.Config.{Configuration}
use kube_combo.Tasks.Run.{Payload, Host, start_debugger}
use kube_combo.Tasks.Kept.{Respects, start_debugger-Keeps}

-- The error of a post; its answer is only logged.
abbrev pub error_of : Result String → Option String
error_of (ok body) = none
error_of (err e) = some e

-- The host whose files and posts are those of internal/util, with the library's join of paths and
-- its JSON.
abbrev pub with_util :
    (h : Host)
    → Files h.World
    → Http h.World
    → (String → String → String)
    → (Payload → String)
    → Host
with_util h files http join json = record h {
  check_file = λ directory name. check_file_existence files (join directory name);
  post = λ url payload. post_json_string http url (json payload) "admin" >>= λ r. pure (error_of r);
}

module _ (h : Host) (files : Files h.World) (http : Http h.World) (open_count : h.World → ℕ)
    (counted : IsHttpCounted http open_count)
    (stat_keeps : (path : String) → Keeps (SameOpen open_count) (files.stat path))
    (load_keeps : (directory name : String)
      → Keeps (SameOpen open_count) (h.load_detection directory name))
    (execute_keeps : (path : String) (args env : List String)
      → Keeps (SameOpen open_count) (h.execute path args env)) where
  abbrev order : IsPreorder (SameOpen open_count)
  order = SameOpen-IsPreorder open_count

  check_file_existence-SameOpen :
      (path : String) → Keeps (SameOpen open_count) (check_file_existence files path)
  unfolding check_file_existence
  check_file_existence-SameOpen path =
      >>=-Keeps (SameOpen open_count) order (files.stat path) _ (stat_keeps path)
        (λ s. pure-Keeps (SameOpen open_count) order _)

  SameOpen-Respects :
      (join : String → String → String) (json : Payload → String)
      → Respects (with_util h files http join json) (SameOpen open_count)
  SameOpen-Respects join json = record {
    order = order;
    check_file_keeps = λ directory name. check_file_existence-SameOpen (join directory name);
    load_keeps = load_keeps;
    execute_keeps = execute_keeps;
    post_keeps = λ url payload.
        >>=-Keeps (SameOpen open_count) order (post_json_string http url (json payload) "admin") _
          (post_json_string-SameOpen http open_count counted url (json payload) "admin")
          (λ r. pure-Keeps (SameOpen open_count) order (error_of r));
  }

  -- The debugger leaks no body of a response: whatever its posts, tasks and files do, as many
  -- bodies are open after the run as before.
  pub start_debugger-SameOpen :
      (join : String → String → String) (json : Payload → String) (config : Configuration)
      → Keeps (SameOpen open_count) (start_debugger (with_util h files http join json) config)
  start_debugger-SameOpen join json config =
      start_debugger-Keeps (with_util h files http join json) (SameOpen open_count)
        (SameOpen-Respects join json) config
