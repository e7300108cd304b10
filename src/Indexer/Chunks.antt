-- ===== src/Indexer/Chunks.antt =====
-- Rows that are written piece by piece are written as one batch.
use sxn_spv.Common.{
  ℕ, zero, suc, ◌≤◌, ◌<◌, ◌≡◌, refl, sym, ap, ◌∙◌, List, [], ◌∷◌, ◌++◌, length, take, drop,
  take-drop, length-drop_le, arith,
}
use sxn_spv.Bitcoin.{Bitcoin}
use sxn_spv.Daemon.{chunks}
use sxn_spv.Store.{DbRow, Db, Codec, put, write}
use sxn_spv.Indexer.{write_chunks}

module _ {bitcoin : Bitcoin} (codec : Codec bitcoin) where
  write-append :
      (db : Db) (rows more : List DbRow)
      → write codec db (rows ++ more) ≡ write codec (write codec db rows) more
  unfolding write
  write-append db [] more = refl
  write-append db ((k, v) ∷ rows) more = write-append (put codec db k v) rows more

  -- The pieces of a list of rows, of whatever size above zero, written one after the other leave the
  -- database that the whole list leaves.
  pub write_chunks-chunks :
      (db : Db) (pieces size : ℕ) (rows : List DbRow)
      → 0 < size
      → length rows ≤ pieces
      → write_chunks codec db (chunks pieces size rows) ≡ write codec db rows
  unfolding write_chunks chunks write
  write_chunks-chunks db zero size [] pos le = refl
  write_chunks-chunks db zero size (x ∷ rows) pos le = absurd (omega arith)
  write_chunks-chunks db (suc pieces) size [] pos le = refl
  write_chunks-chunks db (suc pieces) zero (x ∷ rows) pos le = absurd (omega arith)
  write_chunks-chunks db (suc pieces) (suc size) (x ∷ rows) pos le =
      write_chunks-chunks (write codec db (x ∷ take size rows)) pieces (suc size) (drop size rows)
        pos (omega (arith, length-drop_le size rows))
      ∙ sym (write-append db (x ∷ take size rows) (drop size rows))
      ∙ ap (λ (r : List DbRow). write codec db (x ∷ r)) (take-drop size rows)
