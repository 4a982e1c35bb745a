-- ===== src/Analytics.antt =====
-- Client classification for the dashboards: user agent, country and traffic source
-- (`AdminService._parse_user_agent`, `_detect_country`, `_detect_source` of app/services/admin.py).
pub mod Sources
use tools_backend.Base.{
  ◌-◌, ◌/◌, min, String, ap, Bool, ◌&&◌, ◌||◌, not, Option, none, some, List, [], ◌∷◌, ◌==◌,
  if◌then◌else◌, tests, length, ok, err, Text, codes, contains, is_space, strip_by, lower, upper,
  split,
}

-- `"..." in ua`
abbrev pub mentions : Text → String → Bool
mentions ua word = contains (codes word) ua

abbrev pub os_of : Text → Text
os_of ua =
    if mentions ua "windows"
    then codes "Windows"
    else if mentions ua "macintosh" || mentions ua "mac os x"
    then (if mentions ua "ipad" || mentions ua "iphone" then codes "iOS" else codes "macOS")
    else if mentions ua "android"
    then codes "Android"
    else if mentions ua "iphone" || mentions ua "ipad" || mentions ua "ipod"
    then codes "iOS"
    else if mentions ua "linux"
    then codes "Linux"
    else codes "Other"

abbrev pub device_of : Text → Text
device_of ua =
    if mentions ua "mobi"
      || mentions ua "iphone"
      || mentions ua "ipod"
      || (mentions ua "android" && mentions ua "mobile")
    then codes "Mobile"
    else if mentions ua "ipad"
        || mentions ua "tablet"
        || mentions ua "playbook"
        || mentions ua "kindle"
        || (mentions ua "android" && not (mentions ua "mobile"))
    then codes "Tablet"
    else codes "Desktop"

abbrev pub browser_of : Text → Text
browser_of ua =
    if mentions ua "opera" || mentions ua "opr/"
    then codes "Opera"
    else if mentions ua "edge" || mentions ua "edg/"
    then codes "Edge"
    else if mentions ua "chrome" || mentions ua "crios"
    then codes "Chrome"
    else if mentions ua "firefox" || mentions ua "fxios"
    then codes "Firefox"
    else if mentions ua "safari" && not (mentions ua "chrome") && not (mentions ua "chromium")
    then codes "Safari"
    else codes "Other"

-- (os, device, browser); the tests are made on the lower-cased string
unfoldable pub parse_user_agent : Text → Text × Text × Text
unfolding contains
parse_user_agent [] = (codes "Other", codes "Desktop", codes "Other")
parse_user_agent (c ∷ ua) =
    (os_of (lower (c ∷ ua)), device_of (lower (c ∷ ua)), browser_of (lower (c ∷ ua)))

abbrev last_text : List Text → Text
last_text [] = []
last_text (p ∷ []) = p
last_text (p ∷ q ∷ ps) = last_text (q ∷ ps)

abbrev first_text : List Text → Text
first_text [] = []
first_text (p ∷ ps) = p

-- The region behind the last dash of the first language, if it has two characters.
region_of : Text → Text
unfolding split contains
region_of first_lang =
    let region = upper (last_text (split b'-' first_lang)) in
    if contains (codes "-") first_lang && (length region == 2) then region else codes "US"

unfoldable pub detect_country : Text → Option Text → Text
unfolding region_of strip_by split
detect_country accept_lang (some (c ∷ country)) = upper (c ∷ country)
detect_country [] _ = codes "US"
detect_country (c ∷ accept_lang) _ =
    region_of (strip_by is_space (first_text (split b',' (c ∷ accept_lang))))

abbrev pub is_social : Text → Bool
is_social ref =
    mentions ref "facebook"
    || mentions ref "t.co"
    || mentions ref "twitter"
    || mentions ref "instagram"
    || mentions ref "linkedin"

pub source_of : Text → Text
unfolding contains
source_of ref =
    if mentions ref "google"
    then codes "Organic Search"
    else if is_social ref
    then codes "Social Media"
    else if mentions ref "github" || mentions ref "reddit"
    then codes "Referral"
    else if mentions ref "ads" || mentions ref "googleads"
    then codes "Paid Ads"
    else codes "Referral"

unfoldable pub detect_source : Option Text → Text
unfolding source_of
detect_source none = codes "Direct"
detect_source (some []) = codes "Direct"
detect_source (some (c ∷ referrer)) = source_of (lower (c ∷ referrer))
