-- ===== src/Examples/Output.antt =====
-- What a subprocess writes (internal/freetoken/prefix.go): "ab", a newline and "c", in two pieces.
use viiwork_freetoken.Prelude.{◌≡◌, refl, true, Bool, List, [], ◌∷◌, ◌++◌}
use viiwork_freetoken.Freetoken.Prefix.{Bytes, PrefixWriter, new_prefix_writer, write}
use viiwork_freetoken.Freetoken.Prefix.Lines.{IsPartial, Tagged, write-Tagged}

abbrev takes_all : List Bytes → Bytes → Bool
takes_all _ _ = true

abbrev fresh : PrefixWriter
fresh = new_prefix_writer (62 ∷ [])

fresh-IsPartial : IsPartial fresh.buf
unfolding new_prefix_writer
fresh-IsPartial = tt

write-Tagged_example :
    (((taken : List Bytes) (piece : Bytes) → true ≡ true)
      → (write takes_all (97 ∷ 98 ∷ 10 ∷ 99 ∷ []) fresh).1 ≡ true)
    × ((write takes_all (97 ∷ 98 ∷ 10 ∷ 99 ∷ []) fresh).1 ≡ true
        → Tagged fresh
            (fresh.buf ++ 97 ∷ 98 ∷ 10 ∷ 99 ∷ [])
            (write takes_all (97 ∷ 98 ∷ 10 ∷ 99 ∷ []) fresh).0)
write-Tagged_example = write-Tagged takes_all fresh (97 ∷ 98 ∷ 10 ∷ 99 ∷ []) fresh-IsPartial

-- The line comes out with its prefix, the rest waits.
tagged :
    (write takes_all (97 ∷ 98 ∷ 10 ∷ 99 ∷ []) fresh).0
    ≡ record { prefix = 62 ∷ []; buf = 99 ∷ []; written = (62 ∷ 97 ∷ 98 ∷ 10 ∷ []) ∷ [] }
unfolding write new_prefix_writer
tagged = refl
