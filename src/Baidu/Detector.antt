-- ===== src/Baidu/Detector.antt =====
-- `detector/baidu.go`. A body is a text. The tokenizer of HTML is `tokens`; `parse_url` gives the host
-- name and the path of an address that `url.Parse` accepts.
use search_x.Prelude.{
  leb, ◌==◌, ◌&&◌, some, false, ◌||◌, [], Option, ◌∷◌, none, List, Bool, if◌then◌else◌, ℕ,
}
use search_x.Prelude.Text.{text_eq, codes, Text}
use search_x.Prelude.Strings.{fields, has_suffix, to_lower, join, has_prefix}
use search_x.Domain.Attempts.{Classification}

-- A start tag with its name, a text, or any other token; the error token is the end of the list.
pub data Token : Type 0 where
  start_tag : Text → Token
  text_token : Text → Token
  other : Token

pub record PageLib : Type 0 where
  pub unicode : ℕ → ℕ
  pub tokens : Text → List Token
  pub parse_url : Text → Option (Text × Text)

-- `strings.Contains`
unfoldable pub contains : Text → Text → Bool
unfolding has_prefix
contains [] part = has_prefix [] part
contains (c ∷ s) part = has_prefix (c ∷ s) part || contains s part

-- `strings.EqualFold` with "title", whose letters fold to themselves and to the ASCII capitals alone.
unfoldable pub is_title : Text → Bool
unfolding to_lower
is_title name = text_eq (to_lower (λ c. c) name) (codes "title")

unfoldable mutual
  unfolding is_title join fields

  pub title_in : List Token → Text
  title_in [] = []
  title_in (start_tag name ∷ ts) = if is_title name then title_after ts else title_in ts
  title_in (text_token t ∷ ts) = title_in ts
  title_in (other ∷ ts) = title_in ts

  -- The token after a title tag is consumed, whatever it is.
  pub title_after : List Token → Text
  title_after [] = []
  title_after (text_token t ∷ ts) = join (codes " ") (fields t)
  title_after (start_tag name ∷ ts) = title_in ts
  title_after (other ∷ ts) = title_in ts

unfoldable pub captcha_body : Text → Bool
unfolding contains
captcha_body body =
    let strong_form =
      contains body (codes "id=\"verify-form\"") || contains body (codes "id='verify-form'") in
    let challenge_text =
      contains body (codes "请输入验证码")
      || contains body (codes "百度安全验证")
      || contains body (codes "security verification") in
    strong_form || (challenge_text && contains body (codes "<form"))

unfoldable pub has_normal_root : Text → Bool
unfolding contains
has_normal_root body =
    contains body (codes "id=\"content_left\"")
    || contains body (codes "id='content_left'")
    || contains body (codes "id=\"results\"")
    || contains body (codes "id='results'")

unfoldable pub has_result_card : Text → Bool
unfolding contains
has_result_card body =
    contains body (codes "class=\"result")
    || contains body (codes "class='result")
    || contains body (codes "class=\"c-container")
    || contains body (codes "class='c-container")
    || contains body (codes "data-rank=")
    || contains body (codes "data-log=")

unfoldable pub has_empty_marker : Text → Bool
unfolding contains
has_empty_marker body =
    contains body (codes "class=\"nors")
    || contains body (codes "class='nors")
    || contains body (codes "没有找到相关结果")
    || contains body (codes "未找到相关结果")

module _ (lib : PageLib) where
  unfoldable pub extract_title : Text → Text
  unfolding title_in
  extract_title body = title_in (lib.tokens body)

  unfoldable pub captcha_url : Text → Bool
  unfolding to_lower has_suffix contains
  captcha_url raw = elim (lib.parse_url raw) [
    | none ↦ false
    | some x ↦
        let host = to_lower lib.unicode x.0 in
        let path = to_lower lib.unicode x.1 in
        text_eq host (codes "wappass.baidu.com")
        || (has_suffix host (codes ".baidu.com")
            && (contains path (codes "captcha") || contains path (codes "verify")))
  ]

  -- `Classify`
  unfoldable pub classify : ℕ → Text → Text → Text → Classification
  unfolding extract_title captcha_url captcha_body has_normal_root has_result_card has_empty_marker
      contains to_lower
  classify status final_url page_title body =
      let lower_body = to_lower lib.unicode body in
      let title = if text_eq page_title [] then extract_title body else page_title in
      if status == 429
      then Classification.rate_limited
      else if status == 403 || status == 503 || leb 500 status
      then Classification.blocked
      else if captcha_url final_url || contains title (codes "百度安全验证") || captcha_body lower_body
      then Classification.captcha
      else if leb 400 status
      then Classification.blocked
      else if has_normal_root lower_body && has_result_card lower_body
      then Classification.normal
      else if has_normal_root lower_body && has_empty_marker lower_body
      then Classification.empty
      else Classification.parse_changed
