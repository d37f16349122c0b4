-- ===== src/Core/Block/Headers.antt =====
-- What the hash of a block does not fix: its text has no separators.
use blockchain_messaging.Base.{
  ℕ, ◌+◌, ◌*◌, ◌<◌, ◌≡◌, sym, ap, ◌∙◌, false, not, all, str_eq, if◌then◌else◌, ◌++◌, append_assoc,
  Str, decimal, length, pow10, decimal-append,
}
use blockchain_messaging.Crypto.Hash.{hash}
use blockchain_messaging.Core.Transaction.{Externals, Tx, write_all}
use blockchain_messaging.Core.Block.{Blk, block_text, calculate_hash, is_valid}

module _ (x : Externals) where
  -- The block with another index and time.
  abbrev pub at : Blk x → ℕ → ℕ → Blk x
  at b index timestamp = record b { index = index; timestamp = timestamp }

  -- The number whose digits are those of `a` and then those of `b`.
  abbrev pub joined : ℕ → ℕ → ℕ
  joined a b = a * pow10 (length (decimal b)) + b

  block_text-joined :
      (b : Blk x) (index moved timestamp : ℕ)
      → 0 < index
      → 0 < moved
      → block_text x (at b (joined index moved) timestamp)
        ≡ block_text x (at b index (joined moved timestamp))
  unfolding block_text
  block_text-joined b index moved timestamp h k =
      ap (λ s. s ++ (decimal timestamp ++ rest)) (sym (decimal-append index moved h))
      ∙ append_assoc (decimal index) (decimal moved) (decimal timestamp ++ rest)
      ∙ ap (λ s. decimal index ++ s)
          (sym (append_assoc (decimal moved) (decimal timestamp) rest)
            ∙ ap (λ s. s ++ rest) (decimal-append moved timestamp k))
    where
      rest : Str
      rest = b.previous_hash ++ (write_all (λ (t : Tx x). t.hash) b.transactions ++ decimal b.nonce)

  -- Digits can move from the front of the timestamp of a block to the end of its index: the block
  -- has the same hash afterwards, and is as valid as before.
  is_valid-joined :
      (b : Blk x) (index moved timestamp : ℕ)
      → 0 < index
      → 0 < moved
      → (calculate_hash x (at b (joined index moved) timestamp)
          ≡ calculate_hash x (at b index (joined moved timestamp)))
        × (is_valid x (at b (joined index moved) timestamp)
            ≡ is_valid x (at b index (joined moved timestamp)))
  unfolding calculate_hash is_valid
  is_valid-joined b index moved timestamp h k =
      let e = ap (hash x.ssl) (block_text-joined b index moved timestamp h k) in
      (e, ap (λ s. if not (str_eq s b.hash) then false else all x.is_valid b.transactions) e)
