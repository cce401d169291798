-- ===== src/Examples/Page.antt =====
-- A page with a menu that is skipped (src/web.py).
use claudecodenodus.Base.{lit, text_eq, ◌==◌, ◌≡◌, refl, true, [], ◌∷◌}
use claudecodenodus.Base.Collections.{contains}
use claudecodenodus.Web.Extractor.{
  data_text, new_extractor, skip_tags, block_tags, newline, feed, handle, handle_starttag,
  handle_endtag, handle_data,
}
use claudecodenodus.Web.Hidden
use claudecodenodus.Web.Hidden.{Markup, nothing, text, element, NoTitle, Same, events}

abbrev menu : Markup
menu = element (lit "li") (text (lit "Home") nothing) nothing

nav_skipped : contains (lit "nav") skip_tags ≡ true
unfolding contains skip_tags lit ◌==◌
nav_skipped = refl

menu_untitled : NoTitle menu
unfolding lit ◌==◌
menu_untitled = (refl, tt, tt)

feed-hidden_example :
    Same new_extractor (feed (events (element (lit "nav") menu nothing)) new_extractor)
feed-hidden_example =
    Hidden.feed-hidden (lit "nav") menu new_extractor nav_skipped menu_untitled refl

page_runs :
    (feed (data_text (lit "a") ∷ events (element (lit "nav") menu nothing)) new_extractor).parts
    ≡ lit "a" ∷ newline ∷ newline ∷ []
unfolding feed handle handle_starttag handle_endtag handle_data events contains skip_tags block_tags
    lit ◌==◌
page_runs = refl
