-- ===== src/Prelude/Paths.antt =====
-- The package path: Clean and Join.
use mathlib.Core.Bool.{Bool, true, false, ◌||◌}
use mathlib.Core.List.{List, [], ◌∷◌, ◌++◌, foldl}
use gorb.Prelude.Tests.{nat_eq, if◌then◌else◌}
use gorb.Prelude.Equality.{Text_eq, ◌==◌}
use gorb.Prelude.Text.{Text, text, is_empty, split, join}

abbrev parent : Text
parent = text ".."

-- One element up, from the elements so far, the last first.
go_up : Bool → List Text → List Text
go_up rooted [] = if rooted then [] else parent ∷ []
go_up rooted (top ∷ rest) = if top == parent then parent ∷ top ∷ rest else rest

add_part : Bool → List Text → Text → List Text
unfolding go_up
add_part rooted parts part =
    if is_empty part || part == text "."
    then parts
    else if part == parent
    then go_up rooted parts
    else part ∷ parts

reverse_onto : List Text → List Text → List Text
reverse_onto [] done = done
reverse_onto (part ∷ parts) done = reverse_onto parts (part ∷ done)

clean_body : Bool → Text → Text
unfolding add_part reverse_onto split join
clean_body rooted s = join b'/' (reverse_onto (foldl (add_part rooted) [] (split b'/' s)) [])

dot_if_empty : Text → Text
dot_if_empty [] = text "."
dot_if_empty (c ∷ s) = c ∷ s

-- `path.Clean`
unfoldable pub clean : Text → Text
unfolding clean_body dot_if_empty
clean [] = text "."
clean (c ∷ s) =
    if nat_eq c b'/' then b'/' ∷ clean_body true s else dot_if_empty (clean_body false (c ∷ s))

-- `path.Join` of two elements; those in front that are empty are left out.
unfoldable pub path_join : Text → Text → Text
unfolding clean
path_join [] [] = []
path_join [] (c ∷ s) = clean (c ∷ s)
path_join (c ∷ s) t = clean ((c ∷ s) ++ b'/' ∷ t)
