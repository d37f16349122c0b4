-- ===== src/Core/SmartContractEngine/Views.antt =====
-- What the specification of SmartContractEngine sees of an engine.
use blockchain_messaging.Base.{
  ◌≡◌, refl, ap, ◌∙◌, Bool, true, false, Option, none, some, Str, str_eq, if◌then◌else◌, arith,
}
use blockchain_messaging.Base.Maps.{Map, lookup, insert, lookup-insert}
use blockchain_messaging.Core.SmartContractEngine.{ContractState, Engine, new_engine}
use blockchain_messaging.Core.SmartContractEngine.Specification.{Ledger, Store, at}

-- What the specification sees of a contract, and of the map of contracts.
abbrev pub store : ContractState → Store
store c k = lookup k c.storage

abbrev pub seen : Option ContractState → Option Store
seen none = none
seen (some c) = some (store c)

abbrev pub view : Map ContractState → Ledger
view m a = seen (lookup a m)

pub insert-at {ℓ} :
    {V : Type ℓ} (k : Str) (v : V) (m : Map V)
    → (λ j. lookup j (insert k v m)) ≡ at k (some v) (λ j. lookup j m)
insert-at k v m = λ i j. lookup-insert k j v m i

seen_if :
    (b : Bool) (c : ContractState) (o : Option ContractState)
    → seen (if b then some c else o) ≡ (if b then some (store c) else seen o)
seen_if true c o = refl
seen_if false c o = refl

pub view-insert :
    (a : Str) (c : ContractState) (m : Map ContractState)
    → view (insert a c m) ≡ at a (some (store c)) (view m)
view-insert a c m = λ i j. (ap seen (lookup-insert a j c m) ∙ seen_if (str_eq a j) c (lookup j m)) i

-- What every engine is that was made by the constructor: it has the three standard functions, and
-- no inactive contract.
pub record IsLive (e : Engine) : Type 0 where
  pub standard : e.standard_functions ≡ new_engine.standard_functions
  pub active : (a : Str) (c : ContractState) → lookup a e.contracts ≡ some c → c.is_active ≡ true

pub new_engine-IsLive : IsLive new_engine
unfolding new_engine lookup
new_engine-IsLive = record { standard = refl; active = λ a c h. cc }

pub insert-IsLive :
    (e : Engine) (a : Str) (c : ContractState)
    → IsLive e
    → c.is_active ≡ true
    → IsLive (record e { contracts = insert a c e.contracts })
insert-IsLive e a c l h = record {
  standard = l.standard;
  active = λ a' c' g. ground (arith, lookup-insert a a' c e.contracts, l.active a' c');
}
