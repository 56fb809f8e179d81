-- ===== src/Registry/Closing.antt =====
-- A client connection whose non-tunnel attachment is stopped starts no further non-tunnel
-- connection (apps/gpservice/src/session_registry.rs).
use global_protect_openconne.Prelude.{ℕ, ◌≡◌, refl, Bool, true, some, Result, ok, err, ==_refl}
use global_protect_openconne.Drain.{Heap}
use global_protect_openconne.VpnState.{Uuid}
use global_protect_openconne.Lifecycle.{Lifecycle, ConnectReservation, ServiceResult}
use global_protect_openconne.Registry.{
  SessionRecord, Registry, find, put, unavailable_connection, attachment_closing,
}
use global_protect_openconne.Registry.Attachment.{
  current_connection, reserve_connection, commit_connection, refusal, stop_non_tunnel_attachment,
}
use global_protect_openconne.Registry.Laws.{find-ok, find-put}

module _ (is_closed : Uuid → Bool) (id generation conn : ℕ) (g : Registry) (h : Heap)
    (r : SessionRecord) (found : find unavailable_connection unavailable_connection g id ≡ ok r)
    (current : current_connection is_closed r generation ≡ ok conn) where
  abbrev stopped : Registry
  stopped = (stop_non_tunnel_attachment is_closed id generation conn g h).0

  abbrev closed : SessionRecord
  closed = record r { closed_attachment = some conn }

  stopped-eq : (stop_non_tunnel_attachment is_closed id generation conn g h).0 ≡ put id closed g
  unfolding stop_non_tunnel_attachment
  stopped-eq = rw (found, current, stop_non_tunnel_attachment) (rw (==_refl conn) refl)

  found_stopped : find unavailable_connection unavailable_connection stopped id ≡ ok closed
  found_stopped = rw stopped-eq (find-put _ _ g id closed (find-ok _ _ g id found).0)

  still_current : current_connection is_closed closed generation ≡ ok conn
  unfolding current_connection
  still_current = current

  -- A reservation for the stopped attachment is refused as closing: the registry stays as it is,
  -- and the lifecycle is not asked.
  pub reserve_connection-stop_non_tunnel_attachment :
      (reserve : Lifecycle → Lifecycle × Result ServiceResult ConnectReservation) (l : Lifecycle)
      → reserve_connection is_closed id generation true reserve stopped l
        ≡ (stopped, l, err attachment_closing)
  unfolding reserve_connection
  reserve_connection-stop_non_tunnel_attachment reserve l =
      rw (found_stopped, still_current, reserve_connection) (rw (==_refl conn) refl)

  -- A connection of the attachment that was prepared before the stop is abandoned at its commit.
  pub commit_connection-stop_non_tunnel_attachment :
      (commit : Lifecycle → Lifecycle × ServiceResult) (abandon : Lifecycle → Lifecycle)
      (l : Lifecycle)
      → commit_connection is_closed id generation true commit abandon stopped l
        ≡ (abandon l, attachment_closing)
  unfolding commit_connection refusal
  commit_connection-stop_non_tunnel_attachment commit abandon l =
      rw (found_stopped, still_current, commit_connection, refusal) (rw (==_refl conn) refl)
