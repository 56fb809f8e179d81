-- ===== src/Registry/Claims.antt =====
-- Of the handshakes that are under way on a session, at most one is committed.
use Prim.Native.String.{String}
use global_protect_openconne.Prelude.{
  ℕ, ◌+◌, ◌≡◌, refl, sym, ◌∙◌, inl, inr, true, false, Option, none, some, arith, Result, ok, err,
  is_ok, Result-cases, ◌==◌,
}
use global_protect_openconne.Drain.{Heap}
use global_protect_openconne.VpnState.{Uuid}
use global_protect_openconne.Registry.{
  ConnectionControl, SessionError, reconnect_superseded, unauthorized, unavailable, active,
  SessionRecord, Registry, HandshakePermit, find, put,
}
use global_protect_openconne.Registry.Handshake.{
  commit_attach, is_claimed, begin_handshake, drop_permit, is_current,
}
use global_protect_openconne.Registry.Laws.{
  find-ok, find-put, token_of, is_claimed_lem, commit_attach-ok, begin_handshake-ok,
}

next_unclaimed :
    (p q : HandshakePermit) (c : Option ConnectionControl)
    → is_claimed q (active (p.observed_generation + 1) c none) ≡ false
next_unclaimed p q c = ground arith

put-poisoned : (id : Uuid) (r : SessionRecord) (g : Registry) → (put id r g).poisoned ≡ g.poisoned
unfolding put
put-poisoned id r g = refl

drop_unclaimed :
    (p : HandshakePermit) (g : Registry) (r : SessionRecord)
    → find unavailable unauthorized g p.session_id ≡ ok r
    → is_claimed p r.status ≡ false
    → drop_permit p g ≡ g
unfolding drop_permit
drop_unclaimed p g r q n = rw (q, n, drop_permit)

commit_unclaimed :
    (p : HandshakePermit) (c : ConnectionControl) (g : Registry) (h : Heap) (r : SessionRecord)
    → find unavailable unauthorized g p.session_id ≡ ok r
    → is_claimed p r.status ≡ false
    → commit_attach p c g h ≡ (g, h, err reconnect_superseded)
unfolding commit_attach
commit_unclaimed p c g h r q n = rw (q, n, commit_attach)

module _ (p : HandshakePermit) (c : ConnectionControl) (g : Registry) (h : Heap)
    (done : is_ok (commit_attach p c g h).2 ≡ true) where
  -- After a commit the session has no claim, and its generation is the next.
  committed :
      (r' : SessionRecord) × (find unavailable unauthorized (commit_attach p c g h).0 p.session_id
        ≡ ok r')
      × (r'.status ≡ active (p.observed_generation + 1) (some c) none)
  committed =
      let (r, r', f, y, u, v) = commit_attach-ok p c g h done in
      (r', rw u (find-put unavailable unauthorized g p.session_id r' (find-ok _ _ g _ f).0), v)

  -- The drop of a committed permit, which follows every commit, changes nothing.
  drop_permit-commit_attach : drop_permit p (commit_attach p c g h).0 ≡ (commit_attach p c g h).0
  drop_permit-commit_attach =
      let (r', f, v) = committed in drop_unclaimed p _ r' f (rw v (next_unclaimed p p (some c)))

  -- A successful commit is the last: right after it every permit of the session, the same one or
  -- another, is refused as superseded and changes nothing.
  pub commit_attach-commit_attach :
      (q : HandshakePermit) (d : ConnectionControl) (h' : Heap)
      → q.session_id ≡ p.session_id
      → let g' = (commit_attach p c g h).0 in
        commit_attach q d g' h' ≡ (g', h', err reconnect_superseded)
  commit_attach-commit_attach q d h' e =
      let (r', f, v) = committed in
      commit_unclaimed q d _ h' r' (rw e f) (rw v (next_unclaimed p q (some c)))

  -- The committed attachment is current under the next generation, and under no other.
  pub is_current-commit_attach :
      (n : ℕ)
      → is_current (commit_attach p c g h).0 p.session_id n ≡ (p.observed_generation + 1 == n)
  unfolding is_current
  is_current-commit_attach n = let (r', f, v) = committed in rw (f, is_current) (rw v)

ok-injective :
    {a b : SessionRecord} → ◌≡◌ {A = Result SessionError SessionRecord} (ok a) (ok b) → a ≡ b
ok-injective h = cc

held_not_free :
    {t : Uuid} {r s : SessionRecord}
    → r ≡ s
    → token_of r.status ≡ some t
    → token_of s.status ≡ none
    → ⊥
held_not_free {t} {r} {s} e a b = let f : token_of s.status ≡ some t = rw (← e) a in cc

-- While a handshake is under way, no other can begin on its session.
pub begin_handshake-begin_handshake :
    (now token inst id : ℕ) (version : String) (g : Registry) (p : HandshakePermit)
    (now' token' inst' : ℕ) (version' : String)
    → (begin_handshake now token inst id version g).1 ≡ ok p
    → let g' = (begin_handshake now token inst id version g).0 in
      is_ok (begin_handshake now' token' inst' id version' g').1 ≡ false
begin_handshake-begin_handshake now token inst id version g p now' token' inst' version' h =
    let (r, r', f, u, i, y, t) = begin_handshake-ok now token inst id version g h in
    let g' = (begin_handshake now token inst id version g).0 in
    let f' : find unavailable unauthorized g' id ≡ ok r' =
      rw u (find-put unavailable unauthorized g id r' (find-ok _ _ g _ f).0) in
    let w = (begin_handshake now' token' inst' id version' g').1 in
    elim (Result-cases w) [
      | inl (e, x) ↦ rw x
      | inr (q, x) ↦
          let (s, s', k, _, _, _, free) = begin_handshake-ok now' token' inst' id version' g' x in
          let held = (is_claimed_lem p r'.status y).1 in
          let same : r' ≡ s = ok-injective (sym f' ∙ k) in absurd (held_not_free same held free)
    ]
