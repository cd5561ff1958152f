-- ===== src/Sweeper/Reaping.antt =====
-- What `reapSession` does to the upload it is given, and to nothing else.
use synxor.Common.{
  nat_eq, ℕ, ◌≡◌, Bool, false, ◌==◌, if◌then◌else◌, none, ok, err, arith, lookup-erase,
}
use synxor.Room.Entity.{RoomError}
use synxor.Room.World.{World}
use synxor.Room.Service.Purging.{has_key, remove_all_lem}
use synxor.Storage.Key.{ObjectKey}
use synxor.Storage.Objects.{get_object}
use synxor.Sweeper.{session_keys, reap_session}
use synxor.Transfer.Repository.{find_by_id, delete_by_id}
use synxor.Transfer.Sessions.{UploadSession, get}
use synxor.Transfer.Sessions.Received.{get-delete_session}

module _ (fails : ObjectKey → Bool) (m : UploadSession) (w : World) where
  -- Where storage works, reaping an upload removes its received chunks and its final object, its
  -- session and its Transfer, and leaves every other object, session and Transfer as it was.
  pub reap_session_lem :
      (k : ObjectKey) (j : ℕ)
      → ((k' : ObjectKey) → fails k' ≡ false)
      → let (r, w') = reap_session fails m w in
        (r ≡ ok tt)
        × (get_object k 0 w'.objects
            ≡ (if has_key k (session_keys m) then none else get_object k 0 w.objects))
        × (get j w'.sessions ≡ (if j == m.transfer_id then none else get j w.sessions))
        × (find_by_id j w'.transfers
            ≡ (if j == m.transfer_id then none else find_by_id j w.transfers))
  unfolding reap_session find_by_id delete_by_id
  reap_session_lem k j quiet = ground (
    arith,
    remove_all_lem fails k (session_keys m) w.objects quiet,
    get-delete_session m.transfer_id j w.sessions,
    lookup-erase m.transfer_id j w.transfers.transfers,
  )

  -- When reaping an upload fails in storage, all sessions and Transfers stay as they were, so
  -- that the next sweep finds the upload again.
  pub reap_session_failed :
      (e : RoomError)
      → (reap_session fails m w).0 ≡ err e
      → ((reap_session fails m w).1.sessions ≡ w.sessions)
        × ((reap_session fails m w).1.transfers ≡ w.transfers)
  unfolding reap_session
  reap_session_failed e h = (ground arith, ground arith)
