-- ===== src/Map/Kinds.antt =====
-- runtime/src/map/types.rs: the classifications of pages and of links, and the codes that stand for
-- them in a file.
use agentic_vision.Prelude.{ℕ, ◌≡◌, refl, List, [], ◌∷◌, get_or}

pub data PageType : Type 0 where
  unknown home search_results product_listing product_detail article : PageType
  documentation form_page login checkout cart account : PageType
  error_page captcha media_page comparison review_list map_location : PageType
  dashboard api_docs legal download_page social_feed forum : PageType
  messaging calendar file_browser pricing_page about_page contact_page : PageType
  faq sitemap_page : PageType

-- `page_type as u8`.
unfoldable pub page_code : PageType → ℕ
page_code unknown = 0x00
page_code home = 0x01
page_code search_results = 0x02
page_code product_listing = 0x03
page_code product_detail = 0x04
page_code article = 0x05
page_code documentation = 0x06
page_code form_page = 0x07
page_code login = 0x08
page_code checkout = 0x09
page_code cart = 0x0A
page_code account = 0x0B
page_code error_page = 0x0C
page_code captcha = 0x0D
page_code media_page = 0x0E
page_code comparison = 0x0F
page_code review_list = 0x10
page_code map_location = 0x11
page_code dashboard = 0x12
page_code api_docs = 0x13
page_code legal = 0x14
page_code download_page = 0x15
page_code social_feed = 0x16
page_code forum = 0x17
page_code messaging = 0x18
page_code calendar = 0x19
page_code file_browser = 0x1A
page_code pricing_page = 0x1B
page_code about_page = 0x1C
page_code contact_page = 0x1D
page_code faq = 0x1E
page_code sitemap_page = 0x1F

abbrev page_types : List PageType
page_types =
    unknown ∷ home ∷ search_results ∷ product_listing ∷ product_detail ∷ article ∷ documentation
    ∷ form_page ∷ login ∷ checkout ∷ cart ∷ account ∷ error_page ∷ captcha ∷ media_page ∷ comparison
    ∷ review_list ∷ map_location ∷ dashboard ∷ api_docs ∷ legal ∷ download_page ∷ social_feed
    ∷ forum ∷ messaging ∷ calendar ∷ file_browser ∷ pricing_page ∷ about_page ∷ contact_page ∷ faq
    ∷ sitemap_page ∷ []

-- The codes are consecutive; one that is out of the range is `Unknown`.
unfoldable pub page_type_from_u8 : ℕ → PageType
page_type_from_u8 value = get_or page_types value unknown

pub page_type_from_u8-page_code : (t : PageType) → page_type_from_u8 (page_code t) ≡ t
unfolding page_type_from_u8 page_code
page_type_from_u8-page_code unknown = refl
page_type_from_u8-page_code home = refl
page_type_from_u8-page_code search_results = refl
page_type_from_u8-page_code product_listing = refl
page_type_from_u8-page_code product_detail = refl
page_type_from_u8-page_code article = refl
page_type_from_u8-page_code documentation = refl
page_type_from_u8-page_code form_page = refl
page_type_from_u8-page_code login = refl
page_type_from_u8-page_code checkout = refl
page_type_from_u8-page_code cart = refl
page_type_from_u8-page_code account = refl
page_type_from_u8-page_code error_page = refl
page_type_from_u8-page_code captcha = refl
page_type_from_u8-page_code media_page = refl
page_type_from_u8-page_code comparison = refl
page_type_from_u8-page_code review_list = refl
page_type_from_u8-page_code map_location = refl
page_type_from_u8-page_code dashboard = refl
page_type_from_u8-page_code api_docs = refl
page_type_from_u8-page_code legal = refl
page_type_from_u8-page_code download_page = refl
page_type_from_u8-page_code social_feed = refl
page_type_from_u8-page_code forum = refl
page_type_from_u8-page_code messaging = refl
page_type_from_u8-page_code calendar = refl
page_type_from_u8-page_code file_browser = refl
page_type_from_u8-page_code pricing_page = refl
page_type_from_u8-page_code about_page = refl
page_type_from_u8-page_code contact_page = refl
page_type_from_u8-page_code faq = refl
page_type_from_u8-page_code sitemap_page = refl

pub data EdgeType : Type 0 where
  navigation content_link pagination related breadcrumb form_submit : EdgeType
  action_result redirect external anchor : EdgeType

-- `edge_type as u8`.
unfoldable pub edge_code : EdgeType → ℕ
edge_code navigation = 0x00
edge_code content_link = 0x01
edge_code pagination = 0x02
edge_code related = 0x03
edge_code breadcrumb = 0x04
edge_code form_submit = 0x05
edge_code action_result = 0x06
edge_code redirect = 0x07
edge_code external = 0x08
edge_code anchor = 0x09

abbrev edge_types : List EdgeType
edge_types =
    navigation ∷ content_link ∷ pagination ∷ related ∷ breadcrumb ∷ form_submit ∷ action_result
    ∷ redirect ∷ external ∷ anchor ∷ []

unfoldable pub edge_type_from_u8 : ℕ → EdgeType
edge_type_from_u8 value = get_or edge_types value navigation

pub edge_type_from_u8-edge_code : (t : EdgeType) → edge_type_from_u8 (edge_code t) ≡ t
unfolding edge_type_from_u8 edge_code
edge_type_from_u8-edge_code navigation = refl
edge_type_from_u8-edge_code content_link = refl
edge_type_from_u8-edge_code pagination = refl
edge_type_from_u8-edge_code related = refl
edge_type_from_u8-edge_code breadcrumb = refl
edge_type_from_u8-edge_code form_submit = refl
edge_type_from_u8-edge_code action_result = refl
edge_type_from_u8-edge_code redirect = refl
edge_type_from_u8-edge_code external = refl
edge_type_from_u8-edge_code anchor = refl
