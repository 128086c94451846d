-- ===== src/Examples/Fetching.antt =====
-- The second service on a page that is a JavaScript shell, so that it has to be rendered.
use search_x.WebFetch.Failures.{Outcome, fail, ok, plain, plain_attempt}
use search_x.Examples.Requests.{same_case}
use search_x.Prelude.Strings.{one_of, trim_suffix, to_lower, is_member, trim_space}
use search_x.WebFetch.Service.{read_page}
use search_x.WebFetch.Formatting.{from_fresh, respond}
use search_x.WebFetch.SafeTargets.{validate_and_resolve-IsSafeTarget, IsSafeTarget}
use search_x.WebFetch.SafeAddresses.{AddressLaws}
use search_x.WebFetch.SafeUrl.{unsafe_error, Libraries, Resolver, Policy, validate_and_resolve}
use search_x.Prelude.Int.{pos}
use search_x.Prelude.{
  ◌==◌, refl, ◌≡◌, arith, not, ◌+◌, true, false, none, some, ℕ, [], if◌then◌else◌, ◌∷◌,
}
use search_x.WebFetch.Pipeline.{SafeTarget, Pipeline}
use search_x.Prelude.Text.{text_eq, Text, codes}
use search_x.WebFetch.Types.{
  ReadResponse, ReadRequest, ReadDocument, Resource, QualityResult, ReadTransport, SourceType,
  OutputFormat, ImplementationName, QualityAction, ReadClassification, ReadAttempt, ReadStage,
}
use search_x.WebFetch.Accepted.{Live}

-- The body says how the page was fetched.
abbrev fetched : ReadTransport → Text → Resource
fetched by body = record {
  url = codes "http://a.b/";
  final_url = codes "http://a.b/";
  status_code = 200;
  content_type = codes "text/html";
  charset = codes "utf-8";
  headers = [];
  body = body;
  transport = by;
}

abbrev article : Text → ReadDocument
article body = record {
  url = codes "http://a.b/";
  final_url = codes "http://a.b/";
  title = codes "A";
  author = [];
  published_at = [];
  language = [];
  source_type = SourceType.html;
  content_type = [];
  status_code = 0;
  extractor = ImplementationName.unset;
  content_html = [];
  content_text = body;
  warnings = [];
  stored_at = 0;
}

abbrev judged : Text → QualityResult
judged text =
    if text_eq text (codes "shell")
    then record {
      action = QualityAction.render;
      classification = ReadClassification.js_shell;
      reason = [];
    }
    else record {
      action = QualityAction.accept;
      classification = ReadClassification.success;
      reason = [];
    }

abbrev target : SafeTarget
target = record { url = some (codes "http://a.b/"); addresses = codes "0" ∷ [] }

-- The state is the time; a reader takes one second, and nothing is in the cache.
abbrev pipeline : Pipeline ℕ
pipeline = record {
  now = λ s. s;
  validate = λ raw s. (s, ok target);
  resolve_strategy = λ t. none;
  http_reader = record {
    name = ImplementationName.http_reader;
    read = λ t s. (s + 1000000000, fetched ReadTransport.http (codes "shell"), none);
  };
  browser_reader = some (record {
    name = ImplementationName.chromedp_reader;
    read = λ t s. (s + 1000000000, fetched ReadTransport.chromedp (codes "text"), none);
  });
  detector_name = ImplementationName.mime_type_detector;
  detect = λ r. ok SourceType.html;
  resolve_extractor = λ t. ok (record {
    name = ImplementationName.html_extractor;
    extract = λ r s. (s, article r.body, none);
  });
  evaluator_name = ImplementationName.article_quality_evaluator;
  evaluate = λ d r. judged d.content_text;
  resolve_converter = λ f. ok (record {
    name = ImplementationName.text_converter;
    convert = λ d s. (s, ok (record { content = d.content_text; format = OutputFormat.text }));
  });
  get_fresh = λ k s. none;
  get_stale = λ k s. none;
  set = λ k d s. (s, none);
  ended = λ s. none;
}

abbrev at_policy : ReadAttempt
at_policy =
    plain_attempt ReadStage.policy ImplementationName.safe_url_policy ReadClassification.success

abbrev asked : ReadRequest
asked = record {
  url = codes "http://a.b/ ";
  format = OutputFormat.text;
  max_chars = pos 0;
  refresh = false;
  debug = true;
  request_id = codes "r1";
}

-- The response of an outcome; without one, an empty response.
response_of : Outcome ReadResponse → ReadResponse
response_of (ok r) = r
response_of (fail f) =
    respond asked (from_fresh (article []) []) []
      (record { content = []; format = OutputFormat.text }) 0 0

abbrev answer : ReadResponse
unfolding response_of read_page trim_space text_eq
answer = response_of (read_page pipeline asked 0).1

rendered : answer.meta.fallback_count ≡ 1
unfolding response_of read_page trim_space text_eq
rendered = refl

-- The address 0 is public, 1 a loopback and 2 link-local.
abbrev numbered : Libraries ℕ
numbered = record {
  parse_url = λ raw.
      ok (record { scheme = codes "http"; has_user = false; host = raw; fragment = []; rest = [] });
  hostname = λ h. h;
  port = λ h. [];
  join_host_port = λ h p. h;
  url_text = λ u. u.host;
  parse_port = λ p. none;
  parse_address = λ h. none;
  unmap = λ a. a;
  is_valid = λ a. true;
  is_global_unicast = λ a. not (a == 1);
  is_private = λ a. false;
  is_loopback = λ a. a == 1;
  is_link_local_unicast = λ a. a == 2;
  is_link_local_multicast = λ a. false;
  is_multicast = λ a. false;
  is_unspecified = λ a. false;
  prefix_contains = λ p a. false;
  as_slice = λ a. a ∷ [];
  unicode = same_case;
}

numbered-AddressLaws : AddressLaws numbered
numbered-AddressLaws = record {
  unmaps = λ a. refl;
  internal_plain = λ a h. (ground (arith, h), refl, refl, refl);
}

-- Every host has a public address and a loopback.
abbrev both_addresses : Resolver ℕ ℕ
both_addresses host s = (s + 1, ok (0 ∷ 1 ∷ []))

abbrev lenient : Policy
lenient = record { allowed_hosts = codes "a.b" ∷ []; max_host_length = 253 }

abbrev resolved : SafeTarget
resolved = record { url = some (codes "a.b"); addresses = (0 ∷ []) ∷ (1 ∷ []) ∷ [] }

let_through :
    validate_and_resolve numbered both_addresses lenient (codes "A.b.") 0 ≡ (1, ok resolved)
unfolding validate_and_resolve text_eq is_member trim_space to_lower trim_suffix one_of
let_through = refl

-- Any other host with these addresses is refused.
kept_out :
    validate_and_resolve numbered both_addresses lenient (codes "c.d") 0
    ≡ (1, fail (unsafe_error (plain (codes "resolved address is not public"))))
unfolding validate_and_resolve text_eq is_member trim_space to_lower trim_suffix one_of
kept_out = refl

validate_and_resolve-IsSafeTarget_example :
    IsSafeTarget numbered numbered-AddressLaws lenient (codes "A.b.") resolved
validate_and_resolve-IsSafeTarget_example =
    validate_and_resolve-IsSafeTarget numbered numbered-AddressLaws both_addresses lenient
      (codes "A.b.") 0 1 resolved let_through
