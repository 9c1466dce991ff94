-- ===== src/Routes.antt =====
-- gorilla/mux, by which the three services choose the handler of a request: a parameter, with the
-- order and the matching of routes that it documents. A template is its parts between slashes.
use Prim.Native.Char.{code}
use Prim.Native.String
use simply_chat.Base.{
  String, Bool, true, false, ◌&&◌, ◌||◌, ◌≡◌, ◌≢◌, List, [], ◌∷◌, All, contains, ◌==◌, nat_eq,
  string_eq, if◌then◌else◌,
}

pub data Part : Type 0 where
  literal : String → Part
  variable : String → Part

-- No methods stands for all; a route by a prefix takes every path that begins so.
pub record Route (H : Type 0) : Type 0 where
  pub template : List Part
  pub is_prefix : Bool
  pub methods : List String
  pub handler : H

abbrev pub route : {H : Type 0} → List String → List Part → H → Route H
route methods template handler = record {
  template = template;
  is_prefix = false;
  methods = methods;
  handler = handler;
}

-- The variables of a path are those of mux.Vars, "" where there is none.
pub data Served (H : Type 0) : Type 0 where
  handled : H → (String → String) → Served H
  method_not_allowed : Served H
  not_found : Served H
  redirected : Served H

-- "/a/b" of "a" and "b"
abbrev pub path_of : List String → String
path_of [] = ""
path_of (segment ∷ segments) = String.◌++◌ "/" (String.◌++◌ segment (path_of segments))

abbrev pub has_slash : String → Bool
has_slash String.[] = false
has_slash (String.◌∷◌ c s) = code c == b'/' || has_slash s

-- What stands between two slashes of a path that is not cleaned.
pub record IsSegment (s : String) : Type 0 where
  pub not_empty : s ≢ ""
  pub not_here : s ≢ "."
  pub not_up : s ≢ ".."
  pub no_slash : has_slash s ≡ false

abbrev pub fits : Bool → List Part → List String → Bool
fits is_prefix [] [] = true
fits is_prefix [] (segment ∷ segments) = is_prefix
fits is_prefix (part ∷ parts) [] = false
fits is_prefix (literal text ∷ parts) (segment ∷ segments) =
    text == segment && fits is_prefix parts segments
fits is_prefix (variable name ∷ parts) (segment ∷ segments) = fits is_prefix parts segments

abbrev pub vars : List Part → List String → String → String
vars [] segments key = ""
vars (part ∷ parts) [] key = ""
vars (literal text ∷ parts) (segment ∷ segments) key = vars parts segments key
vars (variable name ∷ parts) (segment ∷ segments) key =
    if key == name then segment else vars parts segments key

abbrev pub allows : String → List String → Bool
allows method [] = true
allows method (m ∷ methods) = contains method (m ∷ methods)

-- The first route that fits the path and allows the method; `seen` says that one before fitted the
-- path alone.
unfoldable pub first_match : {H : Type 0} → Bool → List (Route H) → String → List String → Served H
first_match seen [] method segments = if seen then method_not_allowed else not_found
first_match seen (r ∷ routes) method segments =
    let fitting = fits r.is_prefix r.template segments in
    let rest = first_match (seen || fitting) routes method segments in
    if fitting && allows method r.methods
    then handled r.handler (vars r.template segments)
    else rest

-- `serve` is mux's choice for a method and a path. The documented rule: routes are tried in the order in
-- which they were added, and a variable stands for one segment.
pub record Mux : Type 1 where
  pub serve : {H : Type 0} → List (Route H) → String → String → Served H
  pub serves_first :
      {H : Type 0} (routes : List (Route H)) (method : String) (segments : List String)
      → All IsSegment segments
      → serve routes method (path_of segments) ≡ first_match false routes method segments
