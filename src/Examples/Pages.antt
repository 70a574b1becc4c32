-- ===== src/Examples/Pages.antt =====
-- Runs on the helpers of responses.
use webserer_core.Base.{◌≡◌, codes, Every}
use webserer_core.Response.{html_escape}
use webserer_core.Response.Html.{harmless, html_unescape, html_unescape-html_escape}

html_unescape-html_escape_example :
    Every harmless (html_escape (codes "a<b&amp;"))
    × (html_unescape 0 (html_escape (codes "a<b&amp;")) ≡ codes "a<b&amp;")
html_unescape-html_escape_example = html_unescape-html_escape (codes "a<b&amp;")
