-- ===== src/Base/GoText.antt =====
-- `strings.TrimPrefix` and `strings.Join` of Go's standard library, on native texts.
use Prim.Native.Char.{code}
use Prim.Native.String.{String, ◌++◌}
use mathlib.Core.Option.{Option, none, some}
use mathlib.Core.List.{List}
use mathlib.Core.Bool.{Bool, true, false, ◌||◌}
use blitz.Base.Tests.{◌==◌, nat_eq, if◌then◌else◌}

-- The rest of the text behind the prefix, if it begins so.
abbrev strip : String → String → Option String
strip String.[] s = some s
strip (String.◌∷◌ c p) String.[] = none
strip (String.◌∷◌ c p) (String.◌∷◌ d s) = if code c == code d then strip p s else none

abbrev or_whole : String → Option String → String
or_whole s none = s
or_whole s (some rest) = rest

unfoldable pub trim_prefix : String → String → String
trim_prefix s prefix = or_whole s (strip prefix s)

unfoldable pub join : List String → String → String
join List.[] sep = ""
join (List.◌∷◌ x List.[]) sep = x
join (List.◌∷◌ x (List.◌∷◌ y xs)) sep = x ++ sep ++ join (List.◌∷◌ y xs) sep

-- `strings.Contains`
abbrev starts : Option String → Bool
starts none = false
starts (some rest) = true

unfoldable pub contains_text : String → String → Bool
contains_text String.[] part = starts (strip part String.[])
contains_text (String.◌∷◌ c s) part = starts (strip part (String.◌∷◌ c s)) || contains_text s part

-- `strings.HasPrefix`
abbrev pub has_prefix : String → String → Bool
has_prefix s prefix = starts (strip prefix s)
