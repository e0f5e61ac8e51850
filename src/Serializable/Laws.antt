-- ===== src/Serializable/Laws.antt =====
-- Round trips, registration and moves of serializable objects.
use servus.Prelude.{true, Option, none, some, ◌≡◌, refl}
use servus.Bytes.{Bytes}
use servus.Serializable.{
  Result, Callbacks, Object, Codec, run, notify_deserialized, from_binary, notify_serialize,
  to_binary, register_deserialized, deserialized_error, move_construct, move_assign,
}

module _ {S : Type 0} where
  -- An object with its callbacks.
  abbrev pub live : S → Callbacks S → Object S
  live s c = record { content = s; impl = some c }

  -- An object without a callback for deserialized content.
  abbrev pub idle : S → Option (S → S) → Object S
  idle s h = live s (record { deserialized = none; serialize = h })

  -- If what a codec writes of a content it reads back as that content, into any other, then reading
  -- what an object has written leaves, in any object, what the serialize callback of the first makes
  -- of its content, behind the deserialized callback of the second, both objects having their
  -- callbacks.
  pub from_binary-to_binary :
      (codec : Codec S) (s t : S) (c d : Callbacks S) (bytes : Bytes)
      → ((s t : S) (b : Bytes)
          → codec.write_binary s ≡ Result.returned b
          → codec.read_binary t b ≡ (s, Result.returned true))
      → (to_binary codec (live s c)).1 ≡ Result.returned bytes
      → from_binary codec (live t d) bytes
        ≡ (live (run d.deserialized (run c.serialize s)) d, Result.returned true)
  unfolding from_binary to_binary notify_serialize notify_deserialized
  from_binary-to_binary codec s t c d bytes reads written =
      rw (reads (run c.serialize s) t bytes written, from_binary) refl

  -- On an object with its callbacks, a second callback is refused and changes nothing; once the first
  -- one is taken away it is taken as if there had been none.
  pub one_callback :
      (s : S) (h : Option (S → S)) (f g : S → S)
      → (register_deserialized (register_deserialized (idle s h) (some f)).0 (some g)
          ≡ ((register_deserialized (idle s h) (some f)).0, Result.thrown deserialized_error))
        × (register_deserialized
              (register_deserialized (register_deserialized (idle s h) (some f)).0 none).0
              (some g)
            ≡ register_deserialized (idle s h) (some g))
  unfolding register_deserialized
  one_callback s h f g = (refl, refl)

  -- An object moved from faults when its subclass has read something, and assigning to it what it was
  -- moved to makes it what it was.
  pub moved_from :
      (codec : Codec S) (o : Object S) (s content : S) (bytes : Bytes)
      → codec.read_binary o.content bytes ≡ (s, Result.returned true)
      → ((from_binary codec (move_construct content o).1 bytes).1 ≡ Result.fault)
        × ((move_assign (move_construct content o).1 (move_construct content o).0).0 ≡ o)
  unfolding from_binary notify_deserialized move_construct move_assign
  moved_from codec o s content bytes reads = (rw (reads, from_binary) refl, refl)
