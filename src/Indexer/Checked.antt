-- ===== src/Indexer/Checked.antt =====
-- `sync_headers_with_api_check` of src/index.rs: a round that asserts the tip where `sync_headers` reloads.
use sxn_spv.Common.{ℕ, ◌≡◌, ◌↔◌, Bool, true, false, Option, none, some, List, ◌==◌, arith}
use sxn_spv.Common.Outcome.{Outcome, Panics, ok, err, panic}
use sxn_spv.Bitcoin.{Bitcoin, BlockHash}
use sxn_spv.Header
use sxn_spv.Header.{HeaderEntry, HeaderList, order, apply}
use sxn_spv.Daemon.{Daemon, DaemonError, get_new_headers}
use sxn_spv.Store.{Codec}
use sxn_spv.Store.Open.{Store, reload_store}
use sxn_spv.Indexer.{
  daemon_error, Round, reloaded, compared, applied, ordered, downloaded, written,
  sync_headers_to_add, sync_headers,
}

module _ {bitcoin : Bitcoin} (codec : Codec bitcoin) where
  -- `assert_eq!(tip, headers_sync.tip())`
  abbrev pub asserted : Store bitcoin → BlockHash → Panics BlockHash → Round codec
  asserted store tip (ok t) = elim (tip == t) [
    | true ↦ some (ok tt, store)
    | false ↦ some (panic, store)
  ]
  asserted store tip (err e) = elim e [ ]
  asserted store tip panic = some (panic, store)

  abbrev pub applied_checked : Store bitcoin → BlockHash → Panics (HeaderList bitcoin) → Round codec
  applied_checked store tip (ok headers_sync) =
      asserted (record store { sync_headers = headers_sync }) tip (Header.tip headers_sync)
  applied_checked store tip (err e) = elim e [ ]
  applied_checked store tip panic = some (panic, store)

  abbrev pub ordered_checked :
      Store bitcoin → BlockHash → Panics (List (HeaderEntry bitcoin)) → Round codec
  ordered_checked store tip (ok sync_header_result) =
      let to_add = sync_headers_to_add store sync_header_result in
      applied_checked (written codec store tip to_add) tip (apply store.sync_headers to_add)
  ordered_checked store tip (err e) = elim e [ ]
  ordered_checked store tip panic = some (panic, store)

  abbrev pub downloaded_checked :
      Store bitcoin
      → BlockHash
      → Option (Outcome DaemonError (List bitcoin.BlockHeader))
      → Round codec
  downloaded_checked store tip none = none
  downloaded_checked store tip (some (ok new_headers)) =
      ordered_checked store tip (order store.sync_headers new_headers)
  downloaded_checked store tip (some (err e)) = some (err (daemon_error e), store)
  downloaded_checked store tip (some panic) = some (panic, store)

  unfoldable pub sync_headers_with_api_check :
      ℕ → Daemon bitcoin → Store bitcoin → BlockHash → Round codec
  sync_headers_with_api_check fuel daemon store tip =
      downloaded_checked store tip (get_new_headers daemon fuel store.sync_headers tip)

  -- The round has succeeded and left this store.
  abbrev Success : Store bitcoin → Round codec → Type 0
  Success store' r = r ≡ some (ok tt, store')

  module _ (store' : Store bitcoin) where
    reloaded_fails :
        (store : Store bitcoin) (again : Option (Panics (Store bitcoin)))
        → Success store' (reloaded codec store again)
        → ⊥
    reloaded_fails store none h = ground arith
    reloaded_fails store (some (ok s)) h = ground arith
    reloaded_fails store (some (err e)) h = e
    reloaded_fails store (some panic) h = ground arith

    same_tip_iff :
        (store : Store bitcoin) (same : Bool)
        → Success store' (elim same [ true ↦ some (ok tt, store) | false ↦ some (panic, store) ])
          ↔ Success store' (elim same [
            | true ↦ some (ok tt, store)
            | false ↦ reloaded codec store (reload_store codec store)
          ])
    same_tip_iff store true = (λ h. h, λ h. h)
    same_tip_iff store false = (
      λ h. absurd (ground arith),
      λ h. absurd (reloaded_fails store (reload_store codec store) h),
    )

    compared_iff :
        (store : Store bitcoin) (tip : BlockHash) (found : Panics BlockHash)
        → Success store' (asserted store tip found)
          ↔ Success store' (compared codec store tip found)
    compared_iff store tip (ok t) = same_tip_iff store (tip == t)
    compared_iff store tip (err e) = absurd e
    compared_iff store tip panic = (λ h. h, λ h. h)

    applied_iff :
        (store : Store bitcoin) (tip : BlockHash) (made : Panics (HeaderList bitcoin))
        → Success store' (applied_checked store tip made)
          ↔ Success store' (applied codec store tip made)
    applied_iff store tip (ok hl) =
        compared_iff (record store { sync_headers = hl }) tip (Header.tip hl)
    applied_iff store tip (err e) = absurd e
    applied_iff store tip panic = (λ h. h, λ h. h)

    ordered_iff :
        (store : Store bitcoin) (tip : BlockHash) (made : Panics (List (HeaderEntry bitcoin)))
        → Success store' (ordered_checked store tip made)
          ↔ Success store' (ordered codec store tip made)
    ordered_iff store tip (ok es) =
        let to_add = sync_headers_to_add store es in
        applied_iff (written codec store tip to_add) tip (apply store.sync_headers to_add)
    ordered_iff store tip (err e) = absurd e
    ordered_iff store tip panic = (λ h. h, λ h. h)

    downloaded_iff :
        (store : Store bitcoin) (tip : BlockHash)
        (got : Option (Outcome DaemonError (List bitcoin.BlockHeader)))
        → Success store' (downloaded_checked store tip got)
          ↔ Success store' (downloaded codec store tip got)
    downloaded_iff store tip none = (λ h. h, λ h. h)
    downloaded_iff store tip (some (ok hs)) = ordered_iff store tip (order store.sync_headers hs)
    downloaded_iff store tip (some (err e)) = (λ h. h, λ h. h)
    downloaded_iff store tip (some panic) = (λ h. h, λ h. h)

  -- The two rounds succeed in the same cases, with the same store: they differ only where the tip of the
  -- list is not the node's.
  pub sync_headers_with_api_check_iff :
      (fuel : ℕ) (daemon : Daemon bitcoin) (store store' : Store bitcoin) (tip : BlockHash)
      → (sync_headers_with_api_check fuel daemon store tip ≡ some (ok tt, store'))
        ↔ (sync_headers codec fuel daemon store tip ≡ some (ok tt, store'))
  unfolding sync_headers_with_api_check sync_headers
  sync_headers_with_api_check_iff fuel daemon store store' tip =
      downloaded_iff store' store tip (get_new_headers daemon fuel store.sync_headers tip)
