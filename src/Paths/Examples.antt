-- ===== src/Paths/Examples.antt =====
-- Runs on paths.
use sourcemud.Base.{◌≡◌, refl, List, ◌∷◌}
use sourcemud.Base.Lists.{All}
use sourcemud.Base.Text.{Text, codes, text_eq}
use sourcemud.Strings.Chars.{strlower}
use sourcemud.Strings.Split.{implode}
use sourcemud.Paths.{normalize, get_mime_type, pathinfo}
use sourcemud.Paths.Normal.{IsPlain, normalize-IsPlain}

normalize-IsPlain_example :
    ((parts : List Text) × (normalize (codes "a/../../b//./c") ≡ b'/' ∷ implode parts b'/')
      × All IsPlain parts)
    × (normalize (normalize (codes "a/../../b//./c")) ≡ normalize (codes "a/../../b//./c"))
normalize-IsPlain_example = normalize-IsPlain (codes "a/../../b//./c")

-- A file named as an extension has the type of the extension.
get_mime_type_of_html : get_mime_type (codes "www/html") ≡ codes "text/html"
unfolding get_mime_type text_eq strlower
get_mime_type_of_html = refl

pathinfo_of_page :
    pathinfo (codes "www/a.b/page.tar.gz")
    ≡ record { dir = codes "www/a.b"; file = codes "page.tar.gz"; ext = codes "gz" }
unfolding pathinfo
pathinfo_of_page = refl
