-- ===== src/Storage/Remote.antt =====
-- `RegistryClient` of src/radical/utils/zmq/registry.py and the registry that serves it.
use radical_utils.Prelude.{◌≡◌, ◌≢◌, refl, sym, ap, ◌∙◌, some, [], ◌∷◌}
use radical_utils.Prelude.Chars.{Text, codes, text_eq, split, same_text}
use radical_utils.Prelude.Dict.{lookup, insert}
use radical_utils.Message.{Value, null, str, nil, Fields, no_fields, field}
use radical_utils.Message.Entries.{get_field, del_field, get_or_null}
use radical_utils.Server.{bind_params, returns, Server, register_request, init}
use radical_utils.Server.Requests.{Runtime, settle}
use radical_utils.Client.{returned}
use radical_utils.Client.Calls.{IsLawful, Ready, told, served, request-told}
use radical_utils.Storage.{
  Trouble, put_path, get_path, put_key, put_args, put, get_key, get_args, get, new_registry,
  or_default, assert_none, client_get, client_put,
}
use radical_utils.Storage.Paths.{IsFresh, get_path-put_path, put_path_lost}

-- A registry that waits for a request, with the commands that it was made with.
pub record IsServing (text_of : Trouble → Text) (s : Server Fields) : Type 0 where
  pub ready : Ready s
  pub commands : s.cbs ≡ (new_registry text_of).cbs

module _ (text_of : Trouble → Text) (show : Value → Text) (rt : Runtime)
    (lawful : IsLawful rt) where
  abbrev key_only : Text → Fields
  key_only key = field (codes "key") (str key) no_fields

  abbrev key_and_val : Text → Value → Fields
  key_and_val key v = field (codes "key") (str key) (field (codes "val") v no_fields)

  put_is_known : lookup (codes "put") (new_registry text_of).cbs ≡ some (put text_of)
  unfolding new_registry register_request init lookup insert same_text
  put_is_known = refl

  get_is_known : lookup (codes "get") (new_registry text_of).cbs ≡ some (get text_of)
  unfolding new_registry register_request init lookup insert same_text
  get_is_known = refl

  put_lem :
      (key : Text) (v : Value) (f : Fields)
      → put text_of nil (key_and_val key v) f ≡ (returns null, put_path (split b'.' key) v f)
  unfolding put put_args put_key bind_params get_field del_field same_text
  put_lem key v f = refl

  get_lem :
      (key : Text) (f : Fields)
      → get text_of nil (key_only key) f ≡ (returns (get_path (split b'.' key) f), f)
  unfolding get get_args get_key bind_params get_field del_field same_text
  get_lem key f = refl

  -- A put over the wire.
  pub client_put_lem :
      (key : Text) (v : Value) (s : Server Fields)
      → IsServing text_of s
      → (s' : Server Fields) × (client_put show rt key v s ≡ (returned null, s'))
        × IsServing text_of s'
        × (s'.store ≡ put_path (split b'.' key) v s.store)
  unfolding client_put assert_none settle
  client_put_lem key v s serving =
      let known = ap (λ l. lookup (codes "put") l) serving.commands ∙ put_is_known in
      let (back, told_so) =
        request-told rt show _ _ nil (key_and_val key v) s (put text_of) lawful serving.ready
          known in
      let done = put_lem key v s.store in
      let after = served rt s (returns null, put_path (split b'.' key) v s.store) back in
      (
        after,
        ap (λ p. (assert_none p.0, p.1))
            (told_so ∙ ap (λ o. (told rt.trace o.0, served rt s o back)) done),
        record {
          ready = record { on = serving.ready.on; stays = serving.ready.stays; idle = refl };
          commands = serving.commands;
        },
        refl,
      )

  pub client_get_lem :
      (key : Text) (d : Value) (s : Server Fields)
      → IsServing text_of s
      → (s' : Server Fields) × (client_get show rt key d s
          ≡ (returned (get_path (split b'.' key) s.store), s'))
        × IsServing text_of s'
        × (s'.store ≡ s.store)
  unfolding client_get or_default settle
  client_get_lem key d s serving =
      let known = ap (λ l. lookup (codes "get") l) serving.commands ∙ get_is_known in
      let (back, told_so) =
        request-told rt show _ _ nil (key_only key) s (get text_of) lawful serving.ready known in
      let done = get_lem key s.store in
      (
        served rt s (returns (get_path (split b'.' key) s.store), s.store) back,
        ap (λ p. (or_default d p.0, p.1))
            (told_so ∙ ap (λ o. (told rt.trace o.0, served rt s o back)) done),
        record {
          ready = record { on = serving.ready.on; stays = serving.ready.stays; idle = refl };
          commands = serving.commands;
        },
        refl,
      )

  -- If every value that is sent can be encoded and is decoded as it was, and the registry waits
  -- for a request: a value that is put through a client under a key is what the client then gets
  -- under that key, if the first step of the key leads to no stored value.
  pub client_get-client_put :
      (key : Text) (v d : Value) (s : Server Fields)
      → IsServing text_of s
      → IsFresh (split b'.' key) s.store
      → (client_get show rt key d (client_put show rt key v s).1).0 ≡ returned v
  client_get-client_put key v d s serving fresh =
      let (s1, puts, serving1, stored) = client_put_lem key v s serving in
      let (s2, gets, serving2, same) = client_get_lem key d s1 serving1 in
      ap (λ p. (client_get show rt key d p.1).0) puts
      ∙ ap (λ p. p.0) gets
      ∙ ap (λ f. returned (get_path (split b'.' key) f)) stored
      ∙ ap returned (get_path-put_path (split b'.' key) v s.store fresh)

  -- If every value that is sent can be encoded and is decoded as it was, and the registry waits
  -- for a request: where the first step of a key of two different steps leads to a stored value,
  -- a put through a client does not change what the client gets under the key; the value is got
  -- under the key's last step alone.
  pub client_put_lost :
      (key j k : Text) (v d : Value) (s : Server Fields)
      → IsServing text_of s
      → split b'.' key ≡ k ∷ j ∷ []
      → split b'.' j ≡ j ∷ []
      → get_or_null k s.store ≢ null
      → j ≢ k
      → ((client_get show rt key d (client_put show rt key v s).1).0
          ≡ (client_get show rt key d s).0)
        × ((client_get show rt j d (client_put show rt key v s).1).0 ≡ returned v)
  client_put_lost key j k v d s serving parts single there apart =
      let (s1, puts, serving1, stored) = client_put_lem key v s serving in
      let (s2, gets, serving2, same) = client_get_lem key d s1 serving1 in
      let (s3, gets_j, serving3, same3) = client_get_lem j d s1 serving1 in
      let (s4, got, serving4, same4) = client_get_lem key d s serving in
      let (lost, found) = put_path_lost k j v s.store there apart in
      (
        ap (λ p. (client_get show rt key d p.1).0) puts
            ∙ ap (λ p. p.0) gets
            ∙ ap (λ f. returned (get_path (split b'.' key) f)) stored
            ∙ ap (λ l. returned (get_path l (put_path l v s.store))) parts
            ∙ ap returned lost
            ∙ ap (λ l. returned (get_path l s.store)) (sym parts)
            ∙ ap (λ p. p.0) (sym got),
        ap (λ p. (client_get show rt j d p.1).0) puts
            ∙ ap (λ p. p.0) gets_j
            ∙ ap (λ f. returned (get_path (split b'.' j) f)) stored
            ∙ ap (λ l. returned (get_path l (put_path (split b'.' key) v s.store))) single
            ∙ ap (λ l. returned (get_path (j ∷ []) (put_path l v s.store))) parts
            ∙ ap returned found,
      )
