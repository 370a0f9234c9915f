-- ===== src/CachingMiddleware/Tests.antt =====
-- Runs of the cache: eviction, a hit, two misses at once, and a request with other tool outputs.
use ai_sdk_cpp.Prelude.{
  ℕ, suc, ◌≡◌, refl, List, [], ◌∷◌, ◌++◌, Option, none, some, Bytes, codes, str_eq, length, arith,
}
use ai_sdk_cpp.Prompt.{Json, Message, Prompt, ToolResultOutput, ToolResultPart}
use ai_sdk_cpp.Tools.{Attempt, ok}
use ai_sdk_cpp.Generate.{CallOptions}
use ai_sdk_cpp.CachingMiddleware.{Cache, Looked, empty_cache, look_up, insert, wrap_generate}
use ai_sdk_cpp.CachingMiddleware.Key.{KeySettings, compute_cache_key, with_outputs}
use ai_sdk_cpp.CachingMiddleware.Served.{wrap_generate_outputs}
use ai_sdk_cpp.CachingMiddleware.Lru.{all_seen, calls, lru_calls}
use ai_sdk_cpp.CachingMiddleware.Lru.Refines.{calls-lru_calls}
use ai_sdk_cpp.CachingMiddleware.Reach.{Reach, Reach-IsSound}
use ai_sdk_cpp.CachingMiddleware.Sound.{IsSound, LookedOf}

abbrev cached : Option (Cache ℕ) → Cache ℕ
cached none = empty_cache
cached (some c) = c

abbrev a_key : Bytes
a_key = codes "a"

abbrev b_key : Bytes
b_key = codes "bb"

abbrev one : Cache ℕ
one = cached (insert 2 a_key 1 empty_cache)

abbrev two : Cache ℕ
two = cached (insert 2 b_key 2 one)

-- Two threads miss the same key, and both insert its result: the first node has no iterator.
abbrev raced : Cache ℕ
raced = cached (insert 2 a_key 1 one)

-- The eviction of that node erases the iterator of the other one.
evicted_key : (look_up a_key (cached (insert 2 b_key 2 raced))).0 ≡ Looked.miss
unfolding look_up insert str_eq
evicted_key = refl

-- The least recently used key goes first.
hit_survives :
    (look_up a_key (cached (insert 2 (codes "ccc") 3 (look_up a_key two).1))).0 ≡ Looked.hit 1
unfolding look_up insert str_eq
hit_survives = refl

-- With no room at all the end of an empty list is decremented.
no_room : insert 0 a_key 1 (empty_cache {R = ℕ}) ≡ none
unfolding insert
no_room = refl

abbrev IsLength : Bytes → ℕ → Type 0
IsLength key r = r ≡ length key

two-Reach : Reach IsLength 2 two
unfolding insert str_eq
two-Reach = Reach.inserted b_key 2 (Reach.inserted a_key 1 Reach.start refl refl) refl refl

Reach-IsSound_example :
    IsSound 2 IsLength two
    × LookedOf IsLength (codes "ccc") (look_up (codes "ccc") two).0
    × (c' : Cache ℕ) × (insert 2 (codes "ccc") 3 two ≡ some c')
    × Reach IsLength 2 c'
Reach-IsSound_example = Reach-IsSound IsLength 2 (omega arith) two two-Reach (codes "ccc") 3 refl

-- The world counts the calls of the model, which answers with their number.
abbrev count : ℕ → Attempt ℕ × ℕ
count n = (ok n, suc n)

-- A JSON library that writes the fields one after the other.
abbrev text_json : Json
text_json = record {
  Value = Bytes;
  Object = Bytes;
  empty_object = [];
  string = λ s. s;
  set = λ o key v. o ++ (key ++ b':' ∷ v);
  object = λ o. o;
  serialize = λ v. v;
  safe_parse = λ s. none;
}

abbrev text_array : List Bytes → Bytes
text_array [] = []
text_array (v ∷ vs) = v ++ text_array vs

abbrev with_output_of : Bytes → Bytes → Prompt text_json
with_output_of id output =
    Message.tool (record {
      content =
          record {
            tool_call_id = id;
            tool_name = codes "ls";
            output = ToolResultOutput.json_output output;
            provider_options = [];
          }
          ∷ [];
      provider_options = [];
    })
    ∷ []

abbrev request : Bytes → Bytes → CallOptions text_json (KeySettings text_json)
request id output = record {
  prompt = with_output_of id output;
  settings = record {
    max_output_tokens = none;
    temperature = none;
    top_p = none;
    seed = some (codes "7");
  };
  tools = [];
  tool_choice = none;
}

-- The id of the call is in the key.
key_of_request :
    compute_cache_key text_json text_array (request (codes "c1") (codes "a"))
    ≡ codes "messages:role:toolid:c1seed:7"
unfolding compute_cache_key
key_of_request = refl

abbrev key : Bytes
key = compute_cache_key text_json text_array (request (codes "c1") (codes "a"))

abbrev other_output : ToolResultPart text_json → ToolResultOutput text_json
other_output r = ToolResultOutput.error_json_output (codes "denied")

wrap_generate_outputs_example :
    (c'' : Cache ℕ) × (wrap_generate 2
        (compute_cache_key text_json text_array (record (request (codes "c1") (codes "a")) {
          prompt = with_outputs other_output (with_output_of (codes "c1") (codes "a"));
        }))
        count
        (cached (insert 2 key 7 empty_cache))
        9
      ≡ some (ok 7, c'', 9))
unfolding wrap_generate insert
wrap_generate_outputs_example =
    wrap_generate_outputs text_json text_array (request (codes "c1") (codes "a")) other_output 2
      count count empty_cache (cached (insert 2 key 7 empty_cache)) 7 8 9 7 refl

-- The second key is dropped, since the first one was used again.
abbrev keys_used : List Bytes
keys_used = a_key ∷ b_key ∷ a_key ∷ codes "ccc" ∷ b_key ∷ []

lru_results : (lru_calls 2 (λ key. count) keys_used [] 0).0 ≡ ok 0 ∷ ok 1 ∷ ok 0 ∷ ok 2 ∷ ok 3 ∷ []
unfolding lru_calls str_eq
lru_results = refl

calls-lru_calls_example :
    (t : List (Attempt ℕ) × Cache ℕ × ℕ) × (calls 2 (λ key. count) keys_used empty_cache 0 ≡ some t)
    × (all_seen t ≡ lru_calls 2 (λ key. count) keys_used [] 0)
calls-lru_calls_example = calls-lru_calls 2 (omega arith) (λ key. count) keys_used 0
