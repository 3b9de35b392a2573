-- ===== src/Credentials/Before.antt =====
-- Lists of changes in services/api/credentials.py that were read from some state of the files.
use android_farm.Prelude.{
  Text, text_eq, mem, false, ◌||◌, List, [], ◌∷◌, ◌++◌, map, ◌≡◌, refl, ◌∙◌, arith,
}
use android_farm.Prelude.Dict.{Dict, lookup}
use android_farm.Credentials.{Change, reversed, read_changes}

abbrev pub paths : List Change → List Text
paths = map (λ c. c.path)

-- the texts of the files outside some paths are those of `F`
unfoldable pub IsSame : List Text → Dict Text → Dict Text → Type 0
IsSame X F files = (p : Text) → mem p X ≡ false → lookup p files ≡ lookup p F

-- the changes outside some paths were read from `F`
unfoldable pub AreBefore : List Text → Dict Text → List Change → Type 0
AreBefore X F [] = Unit {0}
AreBefore X F (c ∷ cs) = (mem c.path X ≡ false → c.before ≡ lookup c.path F) × AreBefore X F cs

pub AreBefore-++ :
    (X : List Text) (F : Dict Text) (ds bs : List Change)
    → AreBefore X F ds
    → AreBefore X F bs
    → AreBefore X F (ds ++ bs)
unfolding AreBefore
AreBefore-++ X F [] bs h k = k
AreBefore-++ X F (c ∷ cs) bs (b, h) k = (b, AreBefore-++ X F cs bs h k)

pub AreBefore-cast :
    (F : Dict Text) (ds cs : List Change) → ds ≡ cs → AreBefore [] F ds → AreBefore [] F cs
AreBefore-cast F ds cs e h = rw e at h

pub AreBefore-reversed :
    (X : List Text) (F : Dict Text) (cs : List Change)
    → AreBefore X F cs
    → AreBefore X F (reversed cs)
unfolding AreBefore reversed
AreBefore-reversed X F [] h = h
AreBefore-reversed X F (c ∷ cs) (b, h) =
    AreBefore-++ X F (reversed cs) (c ∷ []) (AreBefore-reversed X F cs h) (b, tt)

pub AreBefore-moved :
    (X : List Text) (F G : Dict Text) (cs : List Change)
    → IsSame X F G
    → AreBefore [] G cs
    → AreBefore X F cs
unfolding AreBefore IsSame mem
AreBefore-moved X F G [] s h = tt
AreBefore-moved X F G (c ∷ cs) s (b, h) = ((λ m. b refl ∙ s c.path m), AreBefore-moved X F G cs s h)

pub read_changes-AreBefore :
    (F : Dict Text) (ws : List (Text × Text)) → AreBefore [] F (read_changes F ws)
unfolding AreBefore read_changes
read_changes-AreBefore F [] = tt
read_changes-AreBefore F ((path, content) ∷ ws) = ((λ m. refl), read_changes-AreBefore F ws)

mem-snoc :
    (p : Text) (c : Change) (cs : List Change)
    → mem p (paths (cs ++ c ∷ [])) ≡ (mem p (paths cs) || text_eq c.path p)
unfolding mem
mem-snoc p c [] = ground arith
mem-snoc p c (d ∷ cs) = ground (arith, mem-snoc p c cs)

pub mem-reversed : (p : Text) (cs : List Change) → mem p (paths (reversed cs)) ≡ mem p (paths cs)
unfolding reversed mem
mem-reversed p [] = refl
mem-reversed p (c ∷ cs) = ground (arith, mem-snoc p c (reversed cs), mem-reversed p cs)
