-- ===== src/TokenCount/Tests.antt =====
-- The theorems on token counts at a small conversation.
use ai_sdk_cpp.Prelude.{ℕ, ◌≡◌, refl, ◌⊎◌, false, [], ◌∷◌, codes, pos, length, ◌-ℤ◌}
use ai_sdk_cpp.Prompt.{Message, Prompt, UserPart, plain_json, text_part, system_message}
use ai_sdk_cpp.TokenCount.{
  ContextWindow, approximate, fits, trim_to_fit, trim_loop, add_message_tokens,
  count_message_tokens, text_to_tokens, available_input_tokens,
}
use ai_sdk_cpp.TokenCount.Trim.{KeepsAfter, IsTrimmed, trim_to_fit-KeepsAfter}

abbrev question : Message plain_json
question = Message.user (record {
  content = UserPart.text (text_part plain_json (codes "what is it?")) ∷ [];
  provider_options = tt;
})

abbrev talk : Prompt plain_json
talk = system_message plain_json (codes "be brief") ∷ question ∷ question ∷ []

abbrev small : ContextWindow
small = record { max_tokens = pos 40; reserved_output_tokens = pos 20 }

trim_to_fit-KeepsAfter_example :
    (k : ℕ) × KeepsAfter talk k (trim_to_fit small (approximate plain_json) talk)
    × IsTrimmed small (approximate plain_json) (trim_to_fit small (approximate plain_json) talk)
    × ((fits small (approximate plain_json) talk ≡ false)
        ⊎ (trim_to_fit small (approximate plain_json) talk ≡ talk))
trim_to_fit-KeepsAfter_example = trim_to_fit-KeepsAfter small (approximate plain_json) talk

small_trims : length (trim_to_fit small (approximate plain_json) talk) ≡ 2
unfolding trim_to_fit fits approximate trim_loop add_message_tokens count_message_tokens
    text_to_tokens available_input_tokens ◌-ℤ◌
small_trims = refl
