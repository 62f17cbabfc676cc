-- ===== src/Types/Entity.antt =====
-- crates/types/src/entity.rs: the parties that an operation involves.
use bunzo.Prelude.{ℕ, Bool, List, [], ◌∷◌, ◌++◌, Option, none, some}

pub data EntityType : Type 0 where
  account paymaster factory aggregator : EntityType

pub record Entity : Type 0 where
  pub kind : EntityType
  pub address : ℕ

pub record EntityInfo : Type 0 where
  pub entity : Entity
  pub is_staked : Bool

pub record EntityInfos : Type 0 where
  pub sender : EntityInfo
  pub factory_info : Option EntityInfo
  pub paymaster_info : Option EntityInfo
  pub aggregator_info : Option EntityInfo

abbrev pub option_iter : {A : Type 0} → Option A → List A
option_iter none = []
option_iter (some a) = a ∷ []

unfoldable pub entity_infos : EntityInfos → List EntityInfo
entity_infos i =
    i.sender
    ∷ (option_iter i.factory_info
        ++ (option_iter i.paymaster_info ++ option_iter i.aggregator_info))
