-- ===== src/Redis/Keys.antt =====
-- The Redis keys (src/shared/constants/redis_keys.py, src/shared/constants/queues.py and the
-- services' own key templates). A key is its template with the text that is put into it; keys of
-- two templates are taken to be different.
use equalify_reflow.Prelude.{
  String, Bool, true, false, ◌&&◌, ◌≡◌, arith, str_eq, eq_iff, eq_refl, refl,
}

pub data Template : Type 0 where
  job jobs_by_updated queue timeouts metrics approval_lock approval_token stream_token : Template
  jobs_in_processing ratelimit_submit_ip ratelimit_submit_global ratelimit_status_ip : Template

pub record Key : Type 0 where
  pub template : Template
  pub name : String

abbrev same_template : Template → Template → Bool
same_template job job = true
same_template jobs_by_updated jobs_by_updated = true
same_template queue queue = true
same_template timeouts timeouts = true
same_template metrics metrics = true
same_template approval_lock approval_lock = true
same_template approval_token approval_token = true
same_template stream_token stream_token = true
same_template jobs_in_processing jobs_in_processing = true
same_template ratelimit_submit_ip ratelimit_submit_ip = true
same_template ratelimit_submit_global ratelimit_submit_global = true
same_template ratelimit_status_ip ratelimit_status_ip = true
same_template _ _ = false

abbrev pub key_eq : Key → Key → Bool
key_eq a b = same_template a.template b.template && str_eq a.name b.name

same_template_refl : (t : Template) → same_template t t ≡ true
same_template_refl job = refl
same_template_refl _ = refl

pub key_eq_refl : (k : Key) → key_eq k k ≡ true
key_eq_refl k = rw (same_template_refl k.template, eq_refl k.name)

same_template_sound : (s t : Template) → same_template s t ≡ true → s ≡ t
same_template_sound s t h = ground arith

pub key_eq_sound : (a b : Key) → key_eq a b ≡ true → a ≡ b
key_eq_sound a b h = ground (arith, same_template_sound a.template b.template, eq_iff a.name b.name)

unfoldable pub job_key : String → Key
job_key job_id = record { template = job; name = job_id }

unfoldable pub queue_name : String → Key
queue_name queue_type = record { template = queue; name = queue_type }

unfoldable pub timeout_key : String → Key
timeout_key timeout_type = record { template = timeouts; name = timeout_type }

unfoldable pub metrics_key : String → Key
metrics_key metric_type = record { template = metrics; name = metric_type }

abbrev pub jobs_by_updated_key : Key
jobs_by_updated_key = record { template = jobs_by_updated; name = "" }

unfoldable pub approval_timeout_key : Key
unfolding timeout_key
approval_timeout_key = timeout_key "approval"

abbrev pub lock_key : String → Key
lock_key job_id = record { template = approval_lock; name = job_id }

abbrev pub approval_token_key : String → Key
approval_token_key token = record { template = approval_token; name = token }

abbrev pub stream_token_key : String → Key
stream_token_key token = record { template = stream_token; name = token }

abbrev pub ratelimit_submit_ip_key : String → Key
ratelimit_submit_ip_key client_ip = record { template = ratelimit_submit_ip; name = client_ip }

abbrev pub ratelimit_submit_global_key : Key
ratelimit_submit_global_key = record { template = ratelimit_submit_global; name = "" }

abbrev pub ratelimit_status_ip_key : String → Key
ratelimit_status_ip_key client_ip = record { template = ratelimit_status_ip; name = client_ip }
