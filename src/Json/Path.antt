-- ===== src/Json/Path.antt =====
-- mbus_json_get_object of src/json/json.c on a path of one part.
use mbus.Base.{ℕ, ◌≡◌, ◌≢◌, refl, none, some, List, [], ◌∷◌, All, arith}
use mbus.Json.{CJson, skip_slashes, split_slash, walk, get_object}

abbrev pub IsName : List ℕ → Type 0
IsName = All (λ c. c ≢ b'/')

split_slash-name : (s : List ℕ) → IsName s → split_slash s ≡ (s, none)
unfolding split_slash
split_slash-name [] h = refl
split_slash-name (c ∷ s) h = ground (arith, h.0, split_slash-name s h.1)

-- The look-up of a path that is not empty and has no slash is one look-up of a member.
get_object-name :
    {J : Type 0} (cj : CJson J) (root : J) (c : ℕ) (s : List ℕ)
    → IsName (c ∷ s)
    → get_object cj (some root) (c ∷ s) ≡ cj.get_object_item root (c ∷ s)
unfolding get_object walk skip_slashes
get_object-name cj root c s h = ground (arith, h.0, split_slash-name (c ∷ s) h)
