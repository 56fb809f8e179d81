-- ===== src/Registry/Attachment.antt =====
-- Connections bound to an attachment (apps/gpservice/src/session_registry.rs). The calls hold the
-- session lock around the lifecycle operation that they are handed, so both change in one step.
-- `is_closed` is the state of the clients' connections.
use global_protect_openconne.Prelude.{
  ℕ, Bool, true, false, ◌&&◌, not, Option, none, some, Result, ok, err, ◌==◌, if◌then◌else◌, is_id,
}
use global_protect_openconne.Drain.{Heap, cancel, is_complete}
use global_protect_openconne.VpnState.{Uuid}
use global_protect_openconne.Lifecycle.{Lifecycle, ConnectReservation, ServiceResult}
use global_protect_openconne.Registry.{
  SessionStatus, pending, active, AttachmentAttempt, SessionRecord, Registry, find, put,
  unavailable_connection, attachment_closing,
}

module _ (is_closed : Uuid → Bool) where
  unfoldable pub current_of : ℕ → SessionStatus → Result ServiceResult Uuid
  current_of expected (active generation (some c) _) =
      if generation == expected && not (is_closed c.connection_id)
      then ok c.connection_id
      else err unavailable_connection
  current_of expected _ = err unavailable_connection

  unfoldable pub current_connection : SessionRecord → ℕ → Result ServiceResult Uuid
  unfolding current_of
  current_connection r expected = current_of expected r.status

  -- The drain of a finished attempt is forgotten.
  abbrev pub live_attempt : Heap → Option AttachmentAttempt → Option AttachmentAttempt
  live_attempt h none = none
  live_attempt h (some a) = if is_complete h a.drain then none else some a

  abbrev recorded :
      Bool → ℕ → Uuid → ConnectReservation → Option AttachmentAttempt → Option AttachmentAttempt
  recorded true generation conn v old =
      some (record { generation = generation; connection_id = conn; drain = v.drain })
  recorded false generation conn v old = old

  unfoldable pub reserve_in :
      Uuid
      → ℕ
      → Uuid
      → Bool
      → (Lifecycle → Lifecycle × Result ServiceResult ConnectReservation)
      → SessionRecord
      → Registry
      → Lifecycle
      → Registry × Lifecycle × Result ServiceResult ConnectReservation
  unfolding put
  reserve_in id generation conn non_tunnel reserve r g l =
      let kept = live_attempt l.heap r.non_tunnel in
      let (l', v) = reserve l in
      elim v [
        | err e ↦ (put id (record r { non_tunnel = kept }) g, l', err e)
        | ok v ↦ (
          put id (record r { non_tunnel = recorded non_tunnel generation conn v kept }) g,
          l',
          ok v,
        )
      ]

  unfoldable pub reserve_connection :
      Uuid
      → ℕ
      → Bool
      → (Lifecycle → Lifecycle × Result ServiceResult ConnectReservation)
      → Registry
      → Lifecycle
      → Registry × Lifecycle × Result ServiceResult ConnectReservation
  unfolding reserve_in
  reserve_connection id generation non_tunnel reserve g l =
      elim (find unavailable_connection unavailable_connection g id) [
        | err e ↦ (g, l, err e)
        | ok r ↦ elim (current_connection r generation) [
          | err e ↦ (g, l, err e)
          | ok conn ↦
              if non_tunnel && is_id r.closed_attachment conn
              then (g, l, err attachment_closing)
              else reserve_in id generation conn non_tunnel reserve r g l
        ]
      ]

  -- Why a commit may not go ahead, if it may not.
  abbrev active_refusal : SessionStatus → Option ServiceResult
  active_refusal (active _ _ _) = none
  active_refusal (pending _ _) = some unavailable_connection

  unfoldable pub refusal : SessionRecord → ℕ → Bool → Option ServiceResult
  refusal r generation true = elim (current_connection r generation) [
    | err e ↦ some e
    | ok conn ↦ if is_id r.closed_attachment conn then some attachment_closing else none
  ]
  refusal r generation false = active_refusal r.status

  -- `commit` consumes the reservation that it captures; `abandon` is what dropping it uncalled does.
  unfoldable pub commit_connection :
      Uuid
      → ℕ
      → Bool
      → (Lifecycle → Lifecycle × ServiceResult)
      → (Lifecycle → Lifecycle)
      → Registry
      → Lifecycle
      → Lifecycle × ServiceResult
  unfolding refusal
  commit_connection id generation non_tunnel commit abandon g l =
      elim (find unavailable_connection unavailable_connection g id) [
        | err e ↦ (abandon l, e)
        | ok r ↦ elim (refusal r generation non_tunnel) [
          | some e ↦ (abandon l, e)
          | none ↦ commit l
        ]
      ]

  abbrev closing : Uuid → Uuid → SessionRecord → SessionRecord
  closing current conn r = if current == conn then record r { closed_attachment = some conn } else r

  stop_attempt : Uuid → Option AttachmentAttempt → Heap → Heap × Option ℕ
  stop_attempt conn none h = (h, none)
  stop_attempt conn (some a) h =
      if a.connection_id == conn then (cancel a.drain h, some a.drain) else (h, none)

  unfoldable pub stop_non_tunnel_attachment :
      Uuid → ℕ → Uuid → Registry → Heap → Registry × Heap × Result ServiceResult (Option ℕ)
  unfolding put stop_attempt
  stop_non_tunnel_attachment id generation conn g h =
      elim (find unavailable_connection unavailable_connection g id) [
        | err e ↦ (g, h, err e)
        | ok r ↦ elim (current_connection r generation) [
          | err e ↦ (g, h, err e)
          | ok current ↦
              let (h', drain) = stop_attempt conn r.non_tunnel h in
              (put id (closing current conn r) g, h', ok drain)
        ]
      ]
