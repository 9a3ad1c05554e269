-- ===== src/Store/Api.antt =====
-- The `Store` trait as the programs that poll it see it: what each call returns while they run
-- (crates/passalong-core/src/store/mod.rs). A call of its own per item leaves room for what other
-- devices do between the calls.
use passalong.Prelude.{Option, List, Result}
use passalong.Model.Id.{ItemId}
use passalong.Model.Meta.{ItemMeta}
use passalong.Store.Errors.{StoreError}

pub record Store (DateTime KeyId : Type 0) : Type 0 where
  pub key_id : Option KeyId
  pub list_ids : Result StoreError (List ItemId)
  pub list : Result StoreError (List (ItemMeta DateTime))
  pub get_meta : ItemId → Result StoreError (ItemMeta DateTime)
