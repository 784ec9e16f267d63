-- ===== src/Category.antt =====
-- `ClassifyCategory` of internal/analysis/analysis.go.
use safe_road.Base.{Bool, ◌||◌, List, [], ◌∷◌, if◌then◌else◌, Text, text_eq, codes, any}
use safe_road.Strings.{trim_space, has_prefix, has_suffix, contains}
use safe_road.Domain.{Platform, to_lower}

abbrev pub social_domains : List Text
social_domains =
    codes "facebook.com"
    ∷ codes "fb.com"
    ∷ codes "messenger.com"
    ∷ codes "instagram.com"
    ∷ codes "tiktok.com"
    ∷ codes "twitter.com"
    ∷ codes "x.com"
    ∷ codes "youtube.com"
    ∷ codes "youtu.be"
    ∷ codes "reddit.com"
    ∷ codes "linkedin.com"
    ∷ codes "pinterest.com"
    ∷ codes "snapchat.com"
    ∷ codes "tumblr.com"
    ∷ codes "whatsapp.com"
    ∷ codes "telegram.org"
    ∷ codes "t.me"
    ∷ codes "discord.com"
    ∷ codes "discord.gg"
    ∷ []

abbrev pub ad_domains : List Text
ad_domains =
    codes "doubleclick.net"
    ∷ codes "adservice.google.com"
    ∷ codes "adnxs.com"
    ∷ codes "adsrvr.org"
    ∷ codes "rubiconproject.com"
    ∷ codes "adcolony.com"
    ∷ codes "unityads.com"
    ∷ codes "applovin.com"
    ∷ codes "criteo.com"
    ∷ codes "taboola.com"
    ∷ codes "outbrain.com"
    ∷ codes "google-analytics.com"
    ∷ codes "scorecardresearch.com"
    ∷ codes "hotjar.com"
    ∷ codes "mixpanel.com"
    ∷ []

abbrev pub adult_tlds : List Text
adult_tlds = codes ".xxx" ∷ codes ".adult" ∷ codes ".sexy" ∷ codes ".porn" ∷ []

abbrev pub adult_keywords : List Text
adult_keywords =
    codes "porn"
    ∷ codes "sex"
    ∷ codes "xvideos"
    ∷ codes "xnxx"
    ∷ codes "pornhub"
    ∷ codes "redtube"
    ∷ codes "onlyfans"
    ∷ codes "erotic"
    ∷ codes "hentai"
    ∷ codes "jav"
    ∷ []

abbrev pub gambling_keywords : List Text
gambling_keywords =
    codes "casino"
    ∷ codes "gamble"
    ∷ codes "lottery"
    ∷ codes "poker"
    ∷ codes "slot"
    ∷ codes "w88"
    ∷ codes "fun88"
    ∷ codes "m88"
    ∷ codes "188bet"
    ∷ codes "kubet"
    ∷ codes "bet88"
    ∷ codes "blackjack"
    ∷ codes "roulette"
    ∷ []

abbrev pub gaming_domains : List Text
gaming_domains =
    codes "roblox.com"
    ∷ codes "minecraft.net"
    ∷ codes "twitch.tv"
    ∷ codes "steamcommunity.com"
    ∷ codes "steampowered.com"
    ∷ codes "playstation.com"
    ∷ codes "xbox.com"
    ∷ codes "nintendo.com"
    ∷ codes "pubg.com"
    ∷ codes "epicgames.com"
    ∷ codes "riotgames.com"
    ∷ codes "blizzard.com"
    ∷ codes "origin.com"
    ∷ codes "ubisoft.com"
    ∷ codes "ea.com"
    ∷ []

abbrev pub gaming_keywords : List Text
gaming_keywords = codes "gaming" ∷ codes "arcade" ∷ codes "playgame" ∷ []

abbrev pub ad_marks : List Text
ad_marks =
    codes "analytics."
    ∷ codes "tracker."
    ∷ codes "telemetry."
    ∷ codes "-analytics"
    ∷ codes "adserver"
    ∷ []

-- The closure `hasSuffix(d, parent)`
unfoldable pub is_under : Text → Text → Bool
is_under d parent = text_eq d parent || has_suffix d (b'.' ∷ parent)

unfoldable pub is_advertising : Text → Bool
unfolding is_under
is_advertising domain =
    any (is_under domain) ad_domains
    || has_prefix domain (codes "ads.")
    || has_prefix domain (codes "ad.")
    || any (contains domain) ad_marks

unfoldable pub category_of_lower : Text → Text
unfolding is_under is_advertising
category_of_lower [] = codes "uncategorized"
category_of_lower (c ∷ s) =
    let domain = c ∷ s in
    if any (is_under domain) social_domains
    then codes "social_media"
    else if is_advertising domain
    then codes "advertising"
    else if any (has_suffix domain) adult_tlds || any (contains domain) adult_keywords
    then codes "adult"
    else if any (contains domain) gambling_keywords
    then codes "gambling"
    else if any (is_under domain) gaming_domains || any (contains domain) gaming_keywords
    then codes "gaming"
    else codes "uncategorized"

unfoldable pub classify_category : Platform → Text → Text
unfolding category_of_lower
classify_category platform domain = category_of_lower (to_lower platform (trim_space domain))
