-- ===== src/Dispatch/Replies.antt =====
-- What the dispatcher's answers say of the admission (apps/gpservice/src/request_dispatcher.rs).
use Prim.Native.String.{String}
use global_protect_openconne.Prelude.{
  ℕ, ◌≡◌, refl, ap, ◌∙◌, sym, ◌⊎◌, inl, inr, Bool, true, false, Option, none, some, [], ◌∷◌, ◌++◌,
  arith, Result, ok, err, Bool-cases, Option-cases, Result-cases, is_ok,
}
use global_protect_openconne.Drain.{is_complete}
use global_protect_openconne.VpnState.{Uuid}
use global_protect_openconne.VpnTask.{all_non_tunnel}
use global_protect_openconne.Lifecycle.{
  Lifecycle, Admission, ServiceResult, ConnectReservation, PreparedConnection, SendOutcome, admit,
  new_reservation, new_admission, reserve_connect, drop_reservation, commit,
}
use global_protect_openconne.Lifecycle.Laws.{
  reserve_connect-cases, drop_reservation-current, Kept, commit-answered, is_accepted, starts,
}
use global_protect_openconne.Registry.{Registry, Bytes, find}
use global_protect_openconne.Registry.Attachment.{
  reserve_connection, reserve_in, commit_connection, refusal, current_connection, current_of,
}
use global_protect_openconne.Dispatch.{
  SessionAuthority, ConnectRequest, ConnectionPreparation, PendingDispatch, Service, connect,
  validate_connect_request, with_report, reserve_for, authorized, dispatch_connect,
  dispatch_prepared, commit_preparation, text_of, restart_for,
}

-- A reservation through the registry is refused, without asking the lifecycle, or it is the
-- lifecycle's.
reserve_connection-cases :
    (is_closed : Uuid → Bool) (id : Uuid) (generation : ℕ) (b : Bool)
    (reserve : Lifecycle → Lifecycle × Result ServiceResult ConnectReservation) (g : Registry)
    (l : Lifecycle)
    → let reserved = reserve_connection is_closed id generation b reserve g l in
      ((reserved.1 ≡ l) × (is_ok reserved.2 ≡ false))
      ⊎ ((reserved.1 ≡ (reserve l).0) × (reserved.2 ≡ (reserve l).1))
unfolding reserve_connection reserve_in
reserve_connection-cases is_closed id generation b reserve g l = elim (Result-cases (reserve l).1) [
  | inl (e, p) ↦ ground arith
  | inr (v, p) ↦ ground arith
]

-- A commit through the registry gives the reservation up with an error, or it is the lifecycle's.
commit_connection-cases :
    (is_closed : Uuid → Bool) (id : Uuid) (generation : ℕ) (b : Bool)
    (commit : Lifecycle → Lifecycle × ServiceResult) (abandon : Lifecycle → Lifecycle)
    (g : Registry) (l : Lifecycle)
    → let committed = commit_connection is_closed id generation b commit abandon g l in
      ((committed.0 ≡ abandon l) × (is_accepted committed.1 ≡ false)) ⊎ (committed ≡ commit l)
unfolding commit_connection refusal current_connection current_of find
commit_connection-cases is_closed id generation true commit abandon g l = ground arith
commit_connection-cases is_closed id generation false commit abandon g l = ground arith

module _ (R : Type 0) (is_closed : Uuid → Bool) (parse_id : String → Option Uuid)
    (as_text : Bytes → String) where
  -- Who holds the admission after a connect request: nobody new after an error, and the preparation
  -- that is returned otherwise.
  pub Answered : Service → Service × Result ServiceResult (PendingDispatch R) → Type 0
  Answered s (s', err e) =
      (s'.lifecycle.current ≡ s.lifecycle.current)
      × (starts s'.lifecycle.events ≡ starts s.lifecycle.events)
  Answered s (s', ok (connect p r uid report)) =
      (m : Admission) × (s'.lifecycle.current ≡ some m)
      × (p.reservation.attempt ≡ m.attempt)
      × (s.lifecycle.current ≡ none)
      × (starts s'.lifecycle.events ≡ starts s.lifecycle.events)
  Answered s (s', ok _) = ⊥

  with_report-Answered :
      (o : SendOutcome) (p : ConnectionPreparation) (r : ConnectRequest) (uid : Option ℕ)
      (report : Result ServiceResult (Option Bytes)) (s : Service) (g : Registry)
      → s.lifecycle.current ≡ none
      → p.reservation ≡ new_reservation s.lifecycle
      → Answered s (
          with_report R is_closed parse_id as_text o p r uid report
            (record { registry = g; lifecycle = admit s.lifecycle }))
  unfolding Answered with_report admit
  with_report-Answered o p r uid (err e) s g free q =
      let (none', same, complete) =
        drop_reservation-current o p.reservation (admit s.lifecycle) (new_admission s.lifecycle)
          refl (rw q refl) in
      (none' ∙ sym free, same)
  with_report-Answered o p r uid (ok report) s g free q =
      (new_admission s.lifecycle, refl, rw q refl, free, refl)

  reserve_for-Answered :
      (o : SendOutcome) (a : SessionAuthority) (r : ConnectRequest) (uid : Option ℕ)
      (given : Option Bytes) (s : Service)
      → Answered s (reserve_for R is_closed parse_id as_text o a r uid given s)
  unfolding Answered reserve_for
  reserve_for-Answered o a r uid given s =
      let reserve = reserve_connect (restart_for a.session_id r.restart_of) in
      let b = all_non_tunnel r.modes in
      let reserved =
        reserve_connection is_closed a.session_id a.generation b reserve s.registry s.lifecycle in
      elim (reserve_connection-cases is_closed a.session_id a.generation b reserve s.registry
        s.lifecycle) [
          | inl (same, refused) ↦ elim (Result-cases reserved.2) [
            | inl (e, q) ↦ rw (reserve_for, q, same) (refl, refl)
            | inr (v, q) ↦ let f : ⊥ = ground arith in absurd f
          ]
          | inr (same, v) ↦
              elim (reserve_connect-cases (restart_for a.session_id r.restart_of) s.lifecycle) [
                | inl (e, q) ↦
                    let kept : reserved.1 ≡ s.lifecycle = same ∙ ap (λ x. x.0) q in
                    let refused : reserved.2 ≡ err e = v ∙ ap (λ x. x.1) q in
                    rw (reserve_for, refused, kept) (refl, refl)
                | inr (q, free) ↦
                    let admitted : reserved.1 ≡ admit s.lifecycle = same ∙ ap (λ x. x.0) q in
                    let granted : reserved.2 ≡ ok (new_reservation s.lifecycle) =
                      v ∙ ap (λ x. x.1) q in
                    rw (reserve_for, granted, admitted)
                      (with_report-Answered o _ r uid _ s reserved.0 free refl)
              ]
        ]

  authorized-Answered :
      (o : SendOutcome) (authority : Option SessionAuthority) (r : ConnectRequest) (uid : Option ℕ)
      (given : Option Bytes) (s : Service)
      → Answered s (authorized R is_closed parse_id as_text o authority r uid given s)
  unfolding Answered authorized
  authorized-Answered o none r uid given s = (refl, refl)
  authorized-Answered o (some a) r uid given s = reserve_for-Answered o a r uid given s

  -- After a connect request that is answered with an error no admission is new and no start is
  -- queued; otherwise no admission was current before, and the admission that is current now is held
  -- by the preparation that is returned.
  pub dispatch_connect-Answered :
      (brokered redacted : Bool) (o : SendOutcome) (authority : Option SessionAuthority)
      (r : ConnectRequest) (uid : Option ℕ) (given : Option Bytes) (s : Service)
      → Answered s (
          dispatch_connect R is_closed parse_id as_text brokered redacted o authority r uid given s)
  unfolding Answered dispatch_connect
  dispatch_connect-Answered brokered redacted o authority r uid given s =
      elim (Option-cases (validate_connect_request brokered r)) [
        | inr (reason, e) ↦ rw (dispatch_connect, e) (refl, refl)
        | inl e ↦ elim (Bool-cases redacted) [
          | inr b ↦ rw (dispatch_connect, e, b) (refl, refl)
          | inl b ↦ rw (dispatch_connect, e, b) (authorized-Answered o authority r uid given s)
        ]
      ]

  -- Where a preparation holds the current admission, the answer to its request tells what became of
  -- it: accepted, and the admission is kept and its start is queued, or rejected, and the admission is
  -- given up, its completion is set and no start is queued.
  pub dispatch_prepared-cases :
      (o o' : SendOutcome) (p : ConnectionPreparation) (c : Option PreparedConnection)
      (uid : Option ℕ) (report : Option Bytes) (s : Service) (m : Admission)
      → s.lifecycle.current ≡ some m
      → p.reservation.attempt ≡ m.attempt
      → let (s', reply) = dispatch_prepared R is_closed parse_id as_text o o' p c uid report s in
        ((is_accepted reply ≡ true)
          × Kept s.lifecycle.current s'.lifecycle.current
          × (starts s'.lifecycle.events ≡ starts s.lifecycle.events ++ m.attempt ∷ []))
        ⊎ ((is_accepted reply ≡ false)
            × (s'.lifecycle.current ≡ none)
            × (starts s'.lifecycle.events ≡ starts s.lifecycle.events)
            × (is_complete s'.lifecycle.heap m.drain ≡ true))
  unfolding dispatch_prepared
  dispatch_prepared-cases o o' p none uid report s m e q =
      let (free, same, complete) = drop_reservation-current o' p.reservation s.lifecycle m e q in
      inr (refl, free, same, complete)
  dispatch_prepared-cases o o' p (some c) uid report s m e q =
      let a = p.authority in
      let session = some a.session_id in
      let text = text_of R is_closed parse_id as_text report in
      elim (commit_connection-cases is_closed a.session_id a.generation p.non_tunnel
        (commit o o' p.reservation c uid text session) (drop_reservation o' p.reservation)
        s.registry s.lifecycle) [
          | inl (dropped, refused) ↦
              let (free, same, complete) =
                drop_reservation-current o' p.reservation s.lifecycle m e q in
              rw (commit_preparation, dropped) (inr (refused, free, same, complete))
          | inr same ↦
              rw (commit_preparation, same)
                (commit-answered o o' p.reservation c uid text session s.lifecycle m e q)
        ]
