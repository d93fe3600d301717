-- ===== src/Util/Posted.antt =====
-- Every body of a response that util.go opens is closed.
use kube_combo.Prelude.{ℕ, ◌-◌, String, ◌<>◌, ◌≡◌, sym, ap, ◌∙◌, arith, ret, Result, ok, err}
use kube_combo.Prelude.{>>=-ret, Keeps, ret-world, bool_eq, nat_eq, string_eq, option_eq, list_eq}
use kube_combo.Util.Http.{Http, Request, with_headers, after_read, after_send, after_create}
use kube_combo.Util.Http.{post_json_string}
use kube_combo.Util.Closed.{SameOpen, Opens}

-- A response opens its body, `Close` closes it, and reading does neither.
pub record IsHttpCounted {W : Type 0} (http : Http W) (open_count : W → ℕ) : Type 0 where
  pub send_opens : (request : Request) → Opens open_count (http.send request)
  pub close_closes : (c : ℕ) (w : W) → open_count (http.close_body c w) ≡ open_count w - 1
  pub read_keeps : (c : ℕ) → Keeps (SameOpen open_count) (http.read_all c)

module _ {W : Type 0} (http : Http W) (open_count : W → ℕ)
    (counted : IsHttpCounted http open_count) where
  after_send-SameOpen :
      (request : Request) (w v u : W) (r : Result ℕ) (s : Result String)
      → http.send request w ≡ ret (r, u)
      → after_send http r u ≡ ret (s, v)
      → open_count v ≡ open_count w
  after_send-SameOpen request w v u (err e) s first rest =
      ap open_count (sym (ret-world (err ("send request failed: " <> e)) s u v rest))
      ∙ counted.send_opens request w u (err e) first
  after_send-SameOpen request w v u (ok c) s first rest =
      let (body, t, read, last) =
        >>=-ret (http.read_all c) (λ body w. ret (after_read body, http.close_body c w)) u v s
          rest in
      let opens = counted.send_opens request w u (ok c) first in
      let same = counted.read_keeps c u t body read in
      let closed = counted.close_closes c t in
      let here = ap open_count (ret-world (after_read body) s (http.close_body c t) v last) in
      omega arith

  after_create-SameOpen :
      (user_id : String) (r : Result Request)
      → Keeps (SameOpen open_count) (after_create http user_id r)
  after_create-SameOpen user_id (err e) w v s h =
      ap open_count (sym (ret-world (err ("create request failed: " <> e)) s w v h))
  after_create-SameOpen user_id (ok request) w v s h =
      let (r, u, first, rest) =
        >>=-ret (http.send (with_headers user_id request)) (after_send http) w v s h in
      after_send-SameOpen (with_headers user_id request) w v u r s first rest

  -- A post leaves no body of a response open, whether it succeeds or fails.
  pub post_json_string-SameOpen :
      (url json_str user_id : String)
      → Keeps (SameOpen open_count) (post_json_string http url json_str user_id)
  unfolding post_json_string
  post_json_string-SameOpen url json_str user_id =
      after_create-SameOpen user_id (http.new_request "POST" url json_str)
