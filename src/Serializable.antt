-- ===== src/Serializable.antt =====
-- `servus::Serializable` (servus/serializable.h, servus/serializable.cpp): the conversions with their
-- two callbacks, and what copies and moves do to these. A callback may change the object that it is
-- registered on, so it is a function on the content.
pub mod Laws
pub mod Data
mod Tests
use servus.Prelude.{ℕ, Bool, true, false, Option, none, some, if◌then◌else◌}
use servus.Bytes.{Bytes, codes}
use servus.Uint128.{Uint128, make_uint128}

-- How a call ends: it returns, it throws a `std::runtime_error`, or it reads through the null pointer
-- that a move has left.
pub data Result {ℓ} (A : Type ℓ) : Type ℓ where
  returned : A → Result A
  thrown : Bytes → Result A
  fault : Result A

-- `Serializable::Impl`: the callbacks, `none` for an empty `std::function`.
pub record Callbacks (S : Type 0) : Type 0 where
  pub deserialized : Option (S → S)
  pub serialize : Option (S → S)

-- The content belongs to the subclass; the pointer `_impl` is null after a move.
pub record Object (S : Type 0) : Type 0 where
  pub content : S
  pub impl : Option (Callbacks S)

-- What a subclass overrides. Deserializing may change the content also where it fails.
pub record Codec (S : Type 0) : Type 0 where
  pub type_name : Bytes
  pub read_binary : S → Bytes → S × Result Bool
  pub write_binary : S → Result Bytes
  pub read_json : S → Bytes → S × Result Bool
  pub write_json : S → Result Bytes

-- The virtual functions of a class that overrides the name alone.
unfoldable pub default_codec : {S : Type 0} → Bytes → Codec S
default_codec type_name = record {
  type_name = type_name;
  read_binary = λ s bytes. (s, thrown (codes "Binary deserialization not implemented"));
  write_binary = λ s. thrown (codes "Binary serialization not implemented");
  read_json = λ s json. (s, thrown (codes "JSON deserialization not implemented"));
  write_json = λ s. thrown (codes "JSON serialization not implemented");
}

-- `getTypeIdentifier`, for an MD5 digest.
unfoldable pub get_type_identifier : {S : Type 0} → (Bytes → ℕ × ℕ) → Codec S → Uint128
unfolding make_uint128
get_type_identifier md5 codec = make_uint128 md5 codec.type_name

unfoldable pub new_object : {S : Type 0} → S → Object S
new_object s = record {
  content = s;
  impl = some (record { deserialized = none; serialize = none });
}

-- The call of a callback, if there is one.
unfoldable pub run : {S : Type 0} → Option (S → S) → S → S
run none s = s
run (some f) s = f s

abbrev pub deserialized_error : Bytes
deserialized_error =
    codes "A DeserializedCallback is already registered. Only one is supported at the moment"

abbrev pub serialize_error : Bytes
serialize_error =
    codes "A SerializeCallback is already registered. Only one is supported at the moment"

module _ {S : Type 0} where
  -- `notifyDeserialized` behind a conversion: nothing is called unless it has returned true.
  unfoldable pub notify_deserialized : Object S → Result Bool → Object S × Result Bool
  unfolding run
  notify_deserialized o (returned true) = elim o.impl [
    | none ↦ (o, fault)
    | some callbacks ↦ (record o { content = run callbacks.deserialized o.content }, returned true)
  ]
  notify_deserialized o (returned false) = (o, returned false)
  notify_deserialized o (thrown e) = (o, thrown e)
  notify_deserialized o fault = (o, fault)

  unfoldable pub from_binary : Codec S → Object S → Bytes → Object S × Result Bool
  unfolding notify_deserialized
  from_binary codec o bytes =
      let (s, result) = codec.read_binary o.content bytes in
      notify_deserialized (record o { content = s }) result

  unfoldable pub from_json : Codec S → Object S → Bytes → Object S × Result Bool
  unfolding notify_deserialized
  from_json codec o json =
      let (s, result) = codec.read_json o.content json in
      notify_deserialized (record o { content = s }) result

  -- `notifySerialize`, and the conversion of what the callback leaves.
  unfoldable pub notify_serialize : (S → Result Bytes) → Object S → Object S × Result Bytes
  unfolding run
  notify_serialize write o = elim o.impl [
    | none ↦ (o, fault)
    | some callbacks ↦
        let s = run callbacks.serialize o.content in (record o { content = s }, write s)
  ]

  unfoldable pub to_binary : Codec S → Object S → Object S × Result Bytes
  unfolding notify_serialize
  to_binary codec o = notify_serialize codec.write_binary o

  unfoldable pub to_json : Codec S → Object S → Object S × Result Bytes
  unfolding notify_serialize
  to_json codec o = notify_serialize codec.write_json o

  -- Whether a new callback is refused: there is one, and the new one is not empty.
  abbrev pub is_refused : Option (S → S) → Option (S → S) → Bool
  is_refused (some f) (some g) = true
  is_refused f g = false

  unfoldable pub register_deserialized : Object S → Option (S → S) → Object S × Result (Unit {0})
  register_deserialized o callback = elim o.impl [
    | none ↦ (o, fault)
    | some callbacks ↦
        if is_refused callbacks.deserialized callback
        then (o, thrown deserialized_error)
        else (record o { impl = some (record callbacks { deserialized = callback }) }, returned tt)
  ]

  unfoldable pub register_serialize : Object S → Option (S → S) → Object S × Result (Unit {0})
  register_serialize o callback = elim o.impl [
    | none ↦ (o, fault)
    | some callbacks ↦
        if is_refused callbacks.serialize callback
        then (o, thrown serialize_error)
        else (record o { impl = some (record callbacks { serialize = callback }) }, returned tt)
  ]

  -- The copy constructor and the assignment, from an object that has its callbacks; `none` is a
  -- null pointer. The content is the subclass's to copy.
  unfoldable pub copy_construct : S → Object S → Option (Object S)
  copy_construct content rhs = elim rhs.impl [
    | none ↦ none
    | some callbacks ↦ some (record { content = content; impl = some callbacks })
  ]

  -- `same` is the test of the assignment for the object itself.
  unfoldable pub copy_assign : Bool → Object S → Object S → Option (Object S)
  copy_assign true lhs rhs = some lhs
  copy_assign false lhs rhs = elim lhs.impl [
    | none ↦ none
    | some _ ↦ elim rhs.impl [
      | none ↦ none
      | some callbacks ↦ some (record lhs { impl = some callbacks })
    ]
  ]

  -- The move constructor: the new object, and what is left of the old one.
  unfoldable pub move_construct : S → Object S → Object S × Object S
  move_construct content rhs =
      (record { content = content; impl = rhs.impl }, record rhs { impl = none })

  -- The move assignment swaps the pointers.
  unfoldable pub move_assign : Object S → Object S → Object S × Object S
  move_assign lhs rhs = (record lhs { impl = rhs.impl }, record rhs { impl = lhs.impl })
