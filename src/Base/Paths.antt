-- ===== src/Base/Paths.antt =====
-- What the program uses of Go's package `path/filepath` on a system with slashes.
use Prim.Native.String.{String, ◌++◌ as ◌⧺◌}
use mathlib.Core.Bool.{Bool, false, ◌||◌, not}
use mathlib.Core.List.{List, [], ◌∷◌, reverse}
use text.Mathlib.Text.{◌==◌ as str_eq}
use splai.Base.Tests.{if◌then◌else◌}
use splai.Base.Text.{is_empty, split, join, has_prefix}

-- whether the names kept so far end in one that a `..` takes back
can_go_up : List String → Bool
can_go_up [] = false
can_go_up (w ∷ ws) = not (str_eq w "..")

pop : List String → List String
pop [] = []
pop (w ∷ ws) = ws

-- the names that are left of a path, the last one first
clean_loop : Bool → List String → List String → List String
clean_loop rooted kept [] = kept
clean_loop rooted kept (w ∷ ws) =
    clean_loop rooted
      (if is_empty w || str_eq w "."
        then kept
        else if str_eq w ".."
        then if can_go_up kept then pop kept else if rooted then kept else w ∷ kept
        else w ∷ kept)
      ws

-- filepath.Clean
unfoldable pub clean : String → String
unfolding clean_loop can_go_up pop
clean path =
    let rooted = has_prefix path "/" in
    let names = join "/" (reverse (clean_loop rooted [] (split "/" path))) in
    if rooted then "/" ⧺ names else if is_empty names then "." else names

non_empty : List String → List String
non_empty [] = []
non_empty (w ∷ ws) = let rest = non_empty ws in if is_empty w then rest else w ∷ rest

-- `clean` of the names joined by slashes, for a list that is not all empty: filepath.Join
unfoldable pub join_path : List String → String
unfolding non_empty
join_path names = clean (join "/" (non_empty names))
