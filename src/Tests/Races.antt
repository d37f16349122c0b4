-- ===== src/Tests/Races.antt =====
-- Two calls of Blockchain::addBlock at once.
use blockchain_messaging.Base.{
  ℕ, zero, suc, ◌≡◌, ◌≢◌, refl, sym, ◌∙◌, false, str_eq, str_eq_iff, List, [], ◌∷◌,
}
use blockchain_messaging.Base.Families.{set_at}
use blockchain_messaging.Core.Block.{Block, new_block}
use blockchain_messaging.Core.Blockchain.{Chain}
use blockchain_messaging.Core.Blockchain.Links.{Linked}
use blockchain_messaging.Core.Blockchain.Races.{advance, advance_at, advance_all, all_calling}
use blockchain_messaging.Core.Blockchain.Races.Interleaved.{advance_all-overlaps}
use blockchain_messaging.Tests.World.{Number, world}
use blockchain_messaging.Tests.Chains.{program, get_balance, chain, genesis, pay, double_spend}

-- Another block on the same chain.
abbrev rival : Block Number
rival = new_block world 12 1 (pay [] 1 ∷ []) genesis.hash

abbrev blocks : ℕ → Block Number
blocks zero = double_spend
blocks (suc n) = rival

abbrev raced : List ℕ → Chain world
raced is = (advance_all world get_balance blocks is (all_calling world chain)).chain

orderly_run : (raced (0 ∷ 0 ∷ 0 ∷ 1 ∷ 1 ∷ 1 ∷ [])).chain ≡ genesis ∷ double_spend ∷ []
unfolding program advance advance_at advance_all all_calling set_at
orderly_run = refl

race_run : (raced (0 ∷ 1 ∷ 0 ∷ 1 ∷ 0 ∷ 1 ∷ [])).chain ≡ genesis ∷ double_spend ∷ rival ∷ []
unfolding program advance advance_at advance_all all_calling set_at
race_run = refl

unlike : str_eq double_spend.hash genesis.hash ≡ false
unfolding program
unlike = refl

unlike_rival : str_eq rival.hash genesis.hash ≡ false
unfolding program
unlike_rival = refl

hashes_differ : (b : Block Number) → str_eq b.hash genesis.hash ≡ false → b.hash ≢ genesis.hash
hashes_differ b u e = cc (sym u ∙ (str_eq_iff b.hash genesis.hash).1 e)

fresh_hashes : (k : ℕ) → (blocks k).hash ≢ genesis.hash
fresh_hashes zero = hashes_differ double_spend unlike
fresh_hashes (suc k) = hashes_differ rival unlike_rival

-- Both calls pass their checks, the second one first, and then append.
abbrev checked : List ℕ
checked = 0 ∷ 1 ∷ 1 ∷ 0 ∷ []

advance_all-overlaps_example :
    ¬ Linked world
      (advance_all world get_balance blocks
        (1 ∷ 0 ∷ 0 ∷ [])
        (advance_all world get_balance blocks checked (all_calling world chain))).chain.chain
unfolding program advance advance_at advance_all all_calling set_at
advance_all-overlaps_example =
    advance_all-overlaps world get_balance blocks chain genesis 0 1 checked (1 ∷ 0 ∷ 0 ∷ []) refl
      fresh_hashes (λ e. cc e) refl refl refl (λ e. cc e) (λ e. cc e)
