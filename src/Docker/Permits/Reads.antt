-- ===== src/Docker/Permits/Reads.antt =====
-- The requests of the handler that reads.
use remote_ops_mcp.Prelude.{
  String, ◌≡◌, refl, true, not, ◌||◌, ◌&&◌, none, some, List, [], ◌∷◌, ◌==◌, eqb, any, split_on,
}
use remote_ops_mcp.Docker.Json.{Host, is_nullish, items_of}
use remote_ops_mcp.Docker.Requests.{
  Number, ListQuery, LogQuery, ping, version, list_containers, inspect_container, read_logs, Answer,
  Call,
}
use remote_ops_mcp.Docker.Settings.{Settings}
use remote_ops_mcp.Docker.Reads.{
  log_keys, allowed_query, list_query, log_query, list_allowed, list_reply, read_resolved,
  read_container, read_by_segments, handle_read,
}
use remote_ops_mcp.Docker.Guarded.{
  History, IsGuarded, IsGuarded-await, IsGuarded-if, IsGuarded-reply, IsGuarded-throws,
  IsGuarded-with_some,
}
use remote_ops_mcp.Docker.Rule.{permits, may_use}
use remote_ops_mcp.Docker.Permits.{resolve-IsGuarded}

module _ (os : Host) (s : Settings) where
  list_reply-IsGuarded : (h : History) (u : Answer) → IsGuarded (permits os s) h (list_reply os s u)
  unfolding list_reply list_allowed
  list_reply-IsGuarded h u =
      IsGuarded-if (permits os s) h (eqb u.status 200) _ _
        (λ e.
          IsGuarded-with_some (permits os s) h (os.parse u.body) _ _
            (IsGuarded-reply (permits os s) h _)
            λ value is_value.
              IsGuarded-with_some (permits os s) h (items_of value) _ (list_allowed s)
                (IsGuarded-reply (permits os s) h _)
                λ items is_items.
                  IsGuarded-if (permits os s) h (any is_nullish items) _ _
                    (λ k. IsGuarded-throws (permits os s) h _)
                    (λ k. IsGuarded-reply (permits os s) h _))
        (λ e. IsGuarded-reply (permits os s) h _)

  may_read :
      (h : History) (ref : String)
      → may_use os s.allowed h ref ≡ true
      → permits os s h (inspect_container ref) ≡ true
  unfolding permits
  may_read h ref usable = usable

  free_requests : (h : History) → (permits os s h ping ≡ true) × (permits os s h version ≡ true)
  unfolding permits
  free_requests h = (refl, refl)

  may_list : (h : History) (q : ListQuery) → permits os s h (list_containers q) ≡ true
  unfolding permits
  may_list h q = refl

  may_log :
      (h : History) (ref : String) (q : LogQuery)
      → may_use os s.allowed h ref ≡ true
      → permits os s h (read_logs ref q) ≡ true
  unfolding permits
  may_log h ref q usable = usable

  module _ (read_number : String → Number) (call : Call) where
    read_resolved-IsGuarded :
        (verb : String) (h : History) (ref : String)
        → may_use os s.allowed h ref ≡ true
        → IsGuarded (permits os s) h (read_resolved os read_number call verb (some ref))
    unfolding read_resolved
    read_resolved-IsGuarded verb h ref usable =
        IsGuarded-if (permits os s) h (verb == "json") _ _
          (λ e.
            IsGuarded-if (permits os s) h (call.search == "") _ _
              (λ k.
                IsGuarded-await (permits os s) h (inspect_container ref) _ (may_read h ref usable)
                  λ u. IsGuarded-reply (permits os s) _ _)
              (λ k. IsGuarded-reply (permits os s) h _))
          (λ e.
            IsGuarded-if (permits os s) h (allowed_query call.params log_keys) _ _
              (λ k.
                IsGuarded-await (permits os s) h (read_logs ref (log_query read_number call.params))
                  _ (may_log h ref _ usable) λ u. IsGuarded-reply (permits os s) _ _)
              (λ k. IsGuarded-reply (permits os s) h _))

    not_read :
        (verb : String) (h : History)
        → IsGuarded (permits os s) h (read_resolved os read_number call verb none)
    unfolding read_resolved
    not_read verb h = IsGuarded-reply (permits os s) h _

    segments-IsGuarded :
        (h : History) (segs : List String)
        → IsGuarded (permits os s) h (read_by_segments os read_number s call segs)
    unfolding read_by_segments read_container
    segments-IsGuarded h (root ∷ (containers ∷ (raw ∷ (verb ∷ [])))) =
        IsGuarded-if (permits os s) h
          (root == ""
            && (containers == "containers"
                && (not (raw == "") && (verb == "json" || verb == "logs"))))
          _ _
          (λ e.
            resolve-IsGuarded os s s.allowed (read_resolved os read_number call verb)
              (not_read verb) (read_resolved-IsGuarded verb) h raw)
          (λ e. IsGuarded-reply (permits os s) h _)
    segments-IsGuarded h [] = IsGuarded-reply (permits os s) h _
    segments-IsGuarded h (a ∷ []) = IsGuarded-reply (permits os s) h _
    segments-IsGuarded h (a ∷ (b ∷ [])) = IsGuarded-reply (permits os s) h _
    segments-IsGuarded h (a ∷ (b ∷ (c ∷ []))) = IsGuarded-reply (permits os s) h _
    segments-IsGuarded h (a ∷ (b ∷ (c ∷ (d ∷ (e ∷ segs))))) = IsGuarded-reply (permits os s) h _

    pub handle_read-IsGuarded :
        (h : History) (path : String)
        → IsGuarded (permits os s) h (handle_read os read_number s call path)
    unfolding handle_read
    handle_read-IsGuarded h path =
        IsGuarded-if (permits os s) h (not (call.method == "GET")) _ _
          (λ e. IsGuarded-reply (permits os s) h _)
          λ e1.
            IsGuarded-if (permits os s) h (path == "/healthz") _ _
              (λ e. IsGuarded-reply (permits os s) h _)
              λ e2.
                IsGuarded-if (permits os s) h (path == "/_ping") _ _
                  (λ e.
                    IsGuarded-if (permits os s) h (call.search == "") _ _
                      (λ k.
                        IsGuarded-await (permits os s) h ping _ (free_requests h).0
                          λ u. IsGuarded-reply (permits os s) _ _)
                      (λ k. IsGuarded-reply (permits os s) h _))
                  λ e3.
                    IsGuarded-if (permits os s) h (path == "/version") _ _
                      (λ e.
                        IsGuarded-if (permits os s) h (call.search == "") _ _
                          (λ k.
                            IsGuarded-await (permits os s) h version _ (free_requests h).1
                              λ u. IsGuarded-reply (permits os s) _ _)
                          (λ k. IsGuarded-reply (permits os s) h _))
                      λ e4.
                        IsGuarded-if (permits os s) h (path == "/containers/json") _ _
                          (λ e.
                            IsGuarded-if (permits os s) h
                              (allowed_query call.params
                                ("all" ∷ "limit" ∷ "size" ∷ "filters" ∷ []))
                              _ _
                              (λ k.
                                IsGuarded-await (permits os s) h
                                  (list_containers (list_query read_number call.params))
                                  (list_reply os s) (may_list h _) λ u. list_reply-IsGuarded _ u)
                              (λ k. IsGuarded-reply (permits os s) h _))
                          λ e5. segments-IsGuarded h (split_on b'/' path)
