-- ===== src/Sessions/Owned.antt =====
-- Where issued gateway sessions end up (crates/gpapi/src/session/desktop/gateway_sessions.rs).
use Prim.Native.String.{String}
use global_protect_openconne.Prelude.{
  ℕ, ◌+◌, ◌≡◌, refl, sym, ap, inl, inr, Bool-cases, Bool, Option, none, some, List, [], ◌∷◌, ◌++◌,
  arith, if◌then◌else◌,
}
use global_protect_openconne.VpnState.{Gateway}
use global_protect_openconne.Sessions.{
  ClientAddresses, no_addresses, is_at, GatewaySession, Ledger, Binding, empty_ledger, register,
  register_login, find, update, without, rebound, bind_non_tunnel, relinquish, gone,
  relinquish_gateway, logout_gateway, logout,
}

module _ (A C : Type 0) where
  -- An operation on the ledger.
  pub data Move : Type 0 where
    registering : Gateway → A → C → Move
    binding : Gateway → Binding A C → Move
    relinquishing logging_out : Move
    relinquishing_at logging_out_at : (server : String) → Move

  abbrev or_same : Option (Ledger A C) → Ledger A C → Ledger A C
  or_same none l = l
  or_same (some m) l = m

  unfoldable pub move : Move → Ledger A C → Ledger A C
  move (registering g a c) l = register_login A C g a c l
  move (binding g b) l = or_same (bind_non_tunnel A C g b l) l
  move relinquishing l = relinquish A C l
  move logging_out l = logout A C l
  move (relinquishing_at server) l = relinquish_gateway A C server l
  move (logging_out_at server) l = logout_gateway A C server l

  unfoldable pub moves : List Move → Ledger A C → Ledger A C
  unfolding move
  moves [] l = l
  moves (m ∷ ms) l = moves ms (move m l)

  module _ (p : A → Bool) where
    -- The sessions whose authentication passes a test, counted.
    unfoldable pub count : List (GatewaySession A C) → ℕ
    count [] = 0
    count (s ∷ ss) = (if p s.authentication then 1 else 0) + count ss

    count-append : (ss ts : List (GatewaySession A C)) → count (ss ++ ts) ≡ count ss + count ts
    unfolding count
    count-append [] ts = omega arith
    count-append (s ∷ ss) ts = omega (arith, count-append ss ts)

    count-without :
        (server : String) (ss ts : List (GatewaySession A C))
        → count (without A C server ss) + count (gone A C (find A C server ss) ts)
          ≡ count ss + count ts
    unfolding count without find
    count-without server [] ts = refl
    count-without server (s ∷ ss) ts = let h = count-without server ss ts in ground arith

    abbrev weight : A → ℕ
    weight a = if p a then 1 else 0

    abbrev authentication_or : A → Option (GatewaySession A C) → A
    authentication_or a none = a
    authentication_or a (some s) = s.authentication

    abbrev at_gateway : Gateway → A → C → ClientAddresses → GatewaySession A C
    at_gateway g a c d = record { gateway = g; authentication = a; client = c; addresses = d }

    -- A session is replaced by one with the same authentication.
    count-update :
        (g : Gateway) (c : C) (d : ClientAddresses) (s : GatewaySession A C)
        (ss : List (GatewaySession A C))
        → find A C g.address ss ≡ some s
        → count (update A C (at_gateway g s.authentication c d) ss) ≡ count ss
    unfolding count update find
    count-update g c d s [] f = refl
    count-update g c d s (u ∷ us) f = elim (Bool-cases (is_at A C g.address u)) [
      | inl q ↦
          let h : some u ≡ some s = rw q at f in
          let e : u.authentication ≡ s.authentication = ap (authentication_or s.authentication) h in
          rw q (ap (λ a. weight a + count us) (sym e))
      | inr q ↦
          let h : find A C g.address us ≡ some s = rw q at f in
          let r = count-update g c d s us h in rw q (ap (λ n. weight u.authentication + n) r)
    ]

    -- All sessions of which the ledger knows what became.
    unfoldable pub known : Ledger A C → ℕ
    known l = count l.members + count l.relinquished + count l.logged_out

    abbrev issued_by : Move → ℕ
    issued_by (registering g a c) = weight a
    issued_by _ = 0

    known-rebound :
        (g : Gateway) (o : Option (GatewaySession A C)) (b : Binding A C) (l : Ledger A C)
        → find A C g.address l.members ≡ o
        → known (or_same (rebound A C g o b l) l) ≡ known l
    unfolding known rebound
    known-rebound g none b l f = refl
    known-rebound g (some s) none l f = refl
    known-rebound g (some s) (some (c, d)) l f = omega (arith, count-update g c d s l.members f)

    known-move : (m : Move) (l : Ledger A C) → known (move m l) ≡ issued_by m + known l
    unfolding known move register_login register relinquish logout relinquish_gateway logout_gateway
        bind_non_tunnel count
    known-move (registering g a c) l =
        let h = count-append l.members (at_gateway g a c (no_addresses A C) ∷ []) in
        omega (arith, h)
    known-move (binding g b) l =
        omega (arith, known-rebound g (find A C g.address l.members) b l refl)
    known-move relinquishing l = omega (arith, count-append l.members l.relinquished)
    known-move logging_out l = omega (arith, count-append l.members l.logged_out)
    known-move (relinquishing_at server) l =
        omega (arith, count-without server l.members l.relinquished)
    known-move (logging_out_at server) l =
        omega (arith, count-without server l.members l.logged_out)

    -- The registered authentications that pass the test, counted.
    unfoldable pub issued : List Move → ℕ
    issued [] = 0
    issued (m ∷ ms) = issued_by m + issued ms

    known-moves : (ms : List Move) (l : Ledger A C) → known (moves ms l) ≡ issued ms + known l
    unfolding moves issued
    known-moves [] l = omega arith
    known-moves (m ∷ ms) l =
        let h = known-moves ms (move m l) in let k = known-move m l in omega (arith, h, k)

  -- After any operations, every registered authentication is in exactly one place: held by the
  -- ledger, given to another owner, or logged out once; and after a final logout none is held. For
  -- each test, as many pass it there together as among the registered ones.
  pub count-moves :
      (p : A → Bool) (ms : List Move)
      → (count p (moves ms (empty_ledger A C)).members
            + count p (moves ms (empty_ledger A C)).relinquished
            + count p (moves ms (empty_ledger A C)).logged_out
          ≡ issued p ms)
        × (count p (logout A C (moves ms (empty_ledger A C))).relinquished
              + count p (logout A C (moves ms (empty_ledger A C))).logged_out
            ≡ issued p ms)
  unfolding known logout count
  count-moves p ms =
      let l = moves ms (empty_ledger A C) in
      let k = known-moves p ms (empty_ledger A C) in
      let a = count-append p l.members l.logged_out in (omega (arith, k), omega (arith, k, a))
