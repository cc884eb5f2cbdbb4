-- ===== src/Store/Tokens.antt =====
-- Refresh tokens rotate.
use remote_ops_mcp.Prelude.{
  ℕ, String, ◌≡◌, ◌≢◌, refl, true, false, none, some, arith, ◌==◌, eq_iff, eq_refl, truthy,
}
use remote_ops_mcp.Dict.{lookup, insert, lookup-insert_self, lookup-insert}
use remote_ops_mcp.Dict.Index.{IsIndex-find, IsIndex-insert, IsIndex-Unique, IsIndex-find_self}
use remote_ops_mcp.Dict.Keys.{find-values-none}
use remote_ops_mcp.Store.Invariant.{IsValid}
use remote_ops_mcp.Store.Model.{StoredSession, Limits, Process, persist}
use remote_ops_mcp.Store.Sessions.{find_session_by_refresh_token, rotate_refresh_token}

-- Only the session `id` has this refresh hash.
abbrev pub OnlyAt : String → String → Process → Type 0
OnlyAt hash id p =
    (j : String) (x : StoredSession) → lookup j p.sessions ≡ some x → x.refresh_hash ≡ hash → j ≡ id

module _ (env : Limits) (sha256 : String → String) (p : Process) (x : StoredSession)
    (old new : String) (refresh access now : ℕ) where
  abbrev pub rotated : StoredSession
  rotated = record x {
    refresh_hash = sha256 new;
    refresh_expires_at = refresh;
    access_expires_at = access;
    last_seen_at = now;
  }

  -- A refresh token finds its session; once that session, not revoked, has been rotated, the old
  -- token finds no session and the new one finds the rotated session. The two tokens have different
  -- hashes, and no other session has either of them.
  pub rotation_replaces_token :
      IsValid env p.state
      → find_session_by_refresh_token sha256 old p ≡ some x
      → truthy x.revoked_at ≡ false
      → sha256 old ≢ sha256 new
      → OnlyAt (sha256 old) x.session_id p
      → OnlyAt (sha256 new) x.session_id p
      → let q = rotate_refresh_token sha256 x.session_id new refresh access now p in
        (q.1 ≡ true)
        × (find_session_by_refresh_token sha256 old q.0 ≡ none)
        × (find_session_by_refresh_token sha256 new q.0 ≡ some rotated)
  unfolding find_session_by_refresh_token rotate_refresh_token persist
  rotation_replaces_token v found live differ only_old only_new =
      let id = x.session_id in
      let (at_own, passes) = IsIndex-find _ _ p.sessions x v.sessions found in
      let d = insert id rotated p.sessions in
      let valid = IsIndex-insert _ id rotated p.sessions refl v.sessions in
      let looks = λ (j : String). lookup-insert id j rotated p.sessions in
      let old_gone =
        find-values-none (λ y. y.refresh_hash == sha256 old) d (IsIndex-Unique _ d valid)
          λ j y e. ground (
            arith,
            looks j,
            eq_iff id j,
            eq_iff y.refresh_hash (sha256 old),
            eq_iff (sha256 new) (sha256 old),
            only_old j y,
          ) in
      let new_found =
        IsIndex-find_self _ (λ y. y.refresh_hash == sha256 new) d id rotated valid
          (lookup-insert_self id rotated p.sessions) (eq_refl (sha256 new))
          λ j y e m.
            ground
              (arith, looks j, eq_iff id j, eq_iff y.refresh_hash (sha256 new), only_new j y) in
      ground (arith, at_own, old_gone, new_found)
