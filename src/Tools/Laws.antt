-- ===== src/Tools/Laws.antt =====
-- What the tools rely on in a store: each call acts on the entry that is live when it takes
-- effect, whatever other sessions did before that.
use agentmemory.Prelude.{Bytes, ◌≡◌, Option, some, List}
use agentmemory.Memory.{
  Entry, Change, ok, Context, PutOption, resolve_put_options, base_for, stored_hash, check_options,
}
use agentmemory.Tools.{Store}

module _ (digest : Bytes → Bytes) where
  -- What a write that landed did, `held` being the entry live under its name before it.
  pub record Landed (e : Entry) (opts : List PutOption) (held : Option Entry) (c : Change)
      : Type 0 where
    pub accepted : check_options digest (resolve_put_options opts) e.scope e.name held ≡ ok tt
    pub scope_is : c.entry.scope ≡ e.scope
    pub name_is : c.entry.name ≡ e.name
    pub content_is : c.entry.content ≡ e.content
    pub meta_is : c.entry.meta ≡ e.meta
    pub prev_is : c.prev ≡ base_for (resolve_put_options opts) held
    pub replaced_is : c.replaced ≡ stored_hash held

module _ (digest : Bytes → Bytes) {S : Type 0} (store : Store S) where
  -- `live s` is what is live when the next call on the state takes effect.
  pub record IsStore (live : S → Bytes → Bytes → Option Entry) : Type 0 where
    pub get_live :
        (s : S) (scope name : Bytes) (e : Entry) (s' : S)
        → store.get_entry s scope name ≡ (ok e, s')
        → (live s scope name ≡ some e) × (e.scope ≡ scope) × (e.name ≡ name)
    pub put_live :
        (ctx : Context) (s : S) (e : Entry) (opts : List PutOption) (c : Change) (s' : S)
        → store.put_entry ctx s e opts ≡ (ok c, s')
        → Landed digest e opts (live s e.scope e.name) c
    pub forget_live :
        (ctx : Context) (s : S) (scope name : Bytes) (c : Change) (s' : S)
        → store.forget_entry ctx s scope name ≡ (ok c, s')
        → (c.entry.scope ≡ scope) × (c.entry.name ≡ name)
