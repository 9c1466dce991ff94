-- ===== src/Tests/Routes.antt =====
-- A mux that splits a path at its slashes, and the requests that the gateway passes on.
use Prim.Native.Char.{code}
use Prim.Native.String
use text.Mathlib.TextLemmas.{nil-append, cons-append}
use simply_chat.Base.{
  String, false, ◌≡◌, refl, ap, ◌∙◌, List, [], ◌∷◌, All, arith, ◌==◌, nat_eq, string_eq,
  if◌then◌else◌, ne-of_==-false,
}
use simply_chat.FileService.Routes
use simply_chat.MessageService.FanOut.{build_content_url}
use simply_chat.Gateway.Routes as GatewayRoutes
use simply_chat.Wire.Routed.{Chosen, url_of, content, proxied-Reached}
use simply_chat.Tests.Files
use simply_chat.Tests.Files.{storage, host, config, with_row, as_uuid}
use simply_chat.Tests.Fixtures.{healthy}
use simply_chat.Tests.Gateway.{urls, messages, validate, request, served, passes}
use simply_chat.Routes.{Mux, first_match, path_of, has_slash, IsSegment}

-- The first segment of a path, before any slash, and the others.
pub split_slashes : String → String × List String
split_slashes String.[] = ("", [])
split_slashes (String.◌∷◌ c s) =
    let (segment, segments) = split_slashes s in
    if code c == b'/' then ("", segment ∷ segments) else (String.◌∷◌ c segment, segments)

split_slashes-append :
    (s rest : String) (segments : List String)
    → has_slash s ≡ false
    → split_slashes rest ≡ ("", segments)
    → split_slashes (String.◌++◌ s rest) ≡ (s, segments)
unfolding split_slashes
split_slashes-append String.[] rest segments h e = ap split_slashes (nil-append rest) ∙ e
split_slashes-append (String.◌∷◌ c s) rest segments h e =
    let deeper = split_slashes-append s rest segments (ground arith) e in
    let plain : (code c == b'/') ≡ false = ground arith in
    ap split_slashes (cons-append c s rest) ∙ rw (deeper, plain) refl

pub split_slashes-path_of :
    (segments : List String)
    → All IsSegment segments
    → split_slashes (path_of segments) ≡ ("", segments)
unfolding split_slashes
split_slashes-path_of [] h = refl
split_slashes-path_of (s ∷ segments) (segment, more) =
    let rest =
      split_slashes-append s (path_of segments) segments segment.no_slash
        (split_slashes-path_of segments more) in
    let joined = String.◌++◌ s (path_of segments) in
    ap split_slashes (cons-append "/" String.[] joined) ∙ rw (nil-append joined, rest) refl

abbrev pub mux : Mux
mux = record {
  serve = λ routes method path. first_match false routes method (split_slashes path).1;
  serves_first = λ routes method segments h.
      ap (λ p. first_match false routes method p.1) (split_slashes-path_of segments h);
}

content_path : request.path ≡ url_of content "a"
unfolding build_content_url
content_path = refl

a-IsSegment : IsSegment "a"
a-IsSegment = record {
  not_empty = ne-of_==-false {A = String} "a" "" refl;
  not_here = ne-of_==-false {A = String} "a" "." refl;
  not_up = ne-of_==-false {A = String} "a" ".." refl;
  no_slash = refl;
}

routed_example :
    Chosen (GatewayRoutes.serve_http mux "GET" request.path) GatewayRoutes.content_file "fileId" "a"
    × (Routes.serve_http healthy storage as_uuid host config mux "GET" served.path Files.asked
          with_row
        ≡ Routes.handle healthy storage as_uuid host config Routes.get_content
            (record Files.asked { id = "a" })
            with_row)
routed_example =
    proxied-Reached mux urls messages validate "files" healthy storage as_uuid host config content
      "a" request tt served Files.asked with_row a-IsSegment content_path passes
