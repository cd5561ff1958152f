-- ===== src/Web/TransferLog/Order.antt =====
-- The order of the stream of apps/web/src/features/room/utils/transfer-log.ts.
use synxor.Common.{ℕ, map, List, [], ◌∷◌, values, sort, IsSorted, sort-IsSorted}
use synxor.Web.TransferLog.{
  TransferLogRow, MergeTransferLogInput, not_after, with_override, merge_transfer_log, merged_rows,
}

map-IsSorted :
    (input : MergeTransferLogInput) (rows : List TransferLogRow)
    → IsSorted (λ row. row.received_at) rows
    → IsSorted (λ row. row.received_at) (map (with_override input) rows)
map-IsSorted input [] h = tt
map-IsSorted input (a ∷ []) h = tt
map-IsSorted input (a ∷ b ∷ rows) h = (h.0, map-IsSorted input (b ∷ rows) h.1)

-- The merged stream is in the order of time: no row is older than the one before it, whatever the
-- Log and the live events are.
pub merge_transfer_log-IsSorted :
    (now : ℕ) (input : MergeTransferLogInput)
    → IsSorted (λ row. row.received_at) (merge_transfer_log now input)
unfolding merge_transfer_log
merge_transfer_log-IsSorted now input =
    map-IsSorted input (sort not_after (values (merged_rows now input)))
      (sort-IsSorted (λ row. row.received_at) (values (merged_rows now input)))
