-- ===== src/Util/Http.antt =====
-- `PostJSONString` of internal/util/util.go.
use kube_combo.Prelude.{ℕ, String, ◌<>◌, [], ◌∷◌, ◌++◌, if◌then◌else◌, ◌!=◌, ret, Io, ◌>>=◌, pure}
use kube_combo.Prelude.{Result, ok, err, bool_eq, nat_eq, string_eq, option_eq, list_eq}
use kube_combo.Prelude.Dict.{Dict}

-- A request with the calls of `Header.Set`, in their order.
pub record Request : Type 0 where
  pub method : String
  pub url : String
  pub body : String
  pub header : Dict

-- The calls of an HTTP client; a response is a number.
pub record Http (W : Type 0) : Type 0 where
  pub new_request : String → String → String → Result Request
  pub send : Request → Io W (Result ℕ)
  pub read_all : ℕ → Io W (Result String)
  pub close_body : ℕ → W → W

-- The headers that the post sets.
abbrev pub with_headers : String → Request → Request
with_headers user_id request = record request {
  header =
      request.header
      ++ ("Content-Type", "application/json")
        ∷ (if user_id != "" then ("user_id", user_id) ∷ [] else []);
}

abbrev pub after_read : Result String → Result String
after_read (ok body) = ok body
after_read (err e) = err ("read response body failed: " <> e)

module _ {W : Type 0} (http : Http W) where
  open http use {new_request, send, read_all, close_body}

  abbrev pub after_send : Result ℕ → Io W (Result String)
  after_send (err e) = pure (err ("send request failed: " <> e))
  after_send (ok response) =
      read_all response >>= λ body w. ret (after_read body, close_body response w)

  abbrev pub after_create : String → Result Request → Io W (Result String)
  after_create user_id (err e) = pure (err ("create request failed: " <> e))
  after_create user_id (ok request) = send (with_headers user_id request) >>= after_send

  -- `PostJSONString`
  unfoldable pub post_json_string : String → String → String → Io W (Result String)
  post_json_string url json_str user_id = after_create user_id (new_request "POST" url json_str)
