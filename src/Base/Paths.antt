-- ===== src/Base/Paths.antt =====
-- Go's filepath.Clean on paths that are separated by slashes.
use mathlib.Core.Bool.{Bool, true, false, ◌||◌}
use mathlib.Core.List.{List, [], ◌∷◌, ◌++◌, reverse}
use arno.Base.Tests.{if◌then◌else◌}
use arno.Base.Lists.{is_empty}
use arno.Base.Bytes.{Text, codes, text_eq, has_prefix, split, join}

abbrev slash : Text
slash = codes "/"

abbrev parent : Text
parent = codes ".."

-- The elements that stay, the last one first. `rooted` says that the path starts with a slash.
abbrev up : Bool → List Text → List Text
up rooted [] = if rooted then [] else parent ∷ []
up rooted (top ∷ stack) = if text_eq top parent then parent ∷ top ∷ stack else stack

unfoldable pub clean_parts : Bool → List Text → List Text → List Text
clean_parts rooted stack [] = stack
clean_parts rooted stack (p ∷ ps) =
    let kept = clean_parts rooted stack ps in
    let deeper = clean_parts rooted (p ∷ stack) ps in
    let above = clean_parts rooted (up rooted stack) ps in
    if is_empty p || text_eq p (codes ".") then kept else if text_eq p parent then above else deeper

abbrev printed : Bool → List Text → Text
printed true ps = slash ++ join slash ps
printed false [] = codes "."
printed false (p ∷ ps) = join slash (p ∷ ps)

unfoldable pub clean : Text → Text
clean path =
    let rooted = has_prefix path slash in
    printed rooted (reverse (clean_parts rooted [] (split b'/' path)))
