-- ===== src/Store/Tests.antt =====
-- A disk for internal/store/store.go where nothing fails, and texts that are their own hash.
use meshyants.Base.{
  ◌≡◌, ◌⊎◌, refl, Bytes, lookup, list_eq, nat_eq, list_beq, false, ok, [], ◌∷◌, ◌++◌, arith,
}
use meshyants.Text.{codes}
use meshyants.Store.{complete, Disk, put, get, multihash_of}
use meshyants.Store.Content.{get_sound, IsIntact, Collision, put_stores}

abbrev plain : Bytes → Bytes
plain s = s

abbrev root : Bytes
root = b'r' ∷ []

abbrev blank : Disk
blank = record { files = []; mkdir_fails = λ p. false; write = λ p. complete }

abbrev content : Bytes
content = 7 ∷ 8 ∷ []

abbrev named : Bytes
named = codes "1220" ++ content

blank-IsIntact : IsIntact plain root blank
unfolding lookup
blank-IsIntact mh c h = ground arith

put_stores_example :
    (named ≡ multihash_of plain root content)
    × ((get plain root named (put plain root content blank).0 ≡ ok content) ⊎ Collision plain root)
unfolding put lookup
put_stores_example = put_stores plain root content named blank blank-IsIntact refl

abbrev stored : Disk
stored = record blank { files = ((root ∷ codes "1220" ∷ named ∷ []), content) ∷ [] }

get_sound_example : multihash_of plain root content ≡ named
unfolding get lookup list_beq
get_sound_example = get_sound plain root named content stored refl
