-- ===== src/Disk/Keep/Tables.antt =====
-- The tables of harness/disk.py that say which repos an engine's spec loads, and the provider
-- prefixes of harness/gateway.py.
use localharness.Prelude.{List, [], ◌∷◌, String}

-- TOOLING
abbrev pub tooling : List (String × String)
tooling =
    ("yuvalkirstain/PickScore_v1", "image adherence scorer (checks/adherence.py)")
    ∷ ("laion/CLIP-ViT-H-14-laion2B-s32B-b79K", "PickScore processor")
    ∷ ("xswu/HPSv2", "image adherence scorer (checks/adherence.py)")
    ∷ ("litmudoc/Chatterbox-Multilingual-MLX-v2-Q8", "cloned voice presets")
    ∷ ("mlx-community/S3TokenizerV2", "Chatterbox speech tokenizer")
    ∷ ("mlx-community/whisper-large-v3-mlx", "multilingual stt (audio.py)")
    ∷ ("microsoft/wavlm-base-plus-sv", "speaker model")
    ∷ []

-- ENGINE_REPOS
abbrev pub engine_repos : List (String × List String)
engine_repos =
    ("h3", "MiniMaxAI/MiniMax-H3" ∷ [])
    ∷ ("acestep", "ACE-Step/Ace-Step1.5" ∷ "ACE-Step/acestep-5Hz-lm-0.6B" ∷ [])
    ∷ []

-- WEIGHTLESS
abbrev pub weightless : List String
weightless = "osocr" ∷ "bm25" ∷ "pii-regex" ∷ []

-- MFLUX_REPOS
abbrev pub mflux_repos : List (String × String)
mflux_repos =
    ("dev", "black-forest-labs/FLUX.1-dev")
    ∷ ("schnell", "black-forest-labs/FLUX.1-schnell")
    ∷ ("krea-dev", "black-forest-labs/FLUX.1-Krea-dev")
    ∷ ("dev-kontext", "black-forest-labs/FLUX.1-Kontext-dev")
    ∷ ("dev-fill", "black-forest-labs/FLUX.1-Fill-dev")
    ∷ ("dev-redux", "black-forest-labs/FLUX.1-Redux-dev")
    ∷ ("dev-depth", "black-forest-labs/FLUX.1-Depth-dev")
    ∷ ("dev-controlnet-canny", "black-forest-labs/FLUX.1-dev")
    ∷ ("schnell-controlnet-canny", "black-forest-labs/FLUX.1-schnell")
    ∷ ("dev-controlnet-upscaler", "black-forest-labs/FLUX.1-dev")
    ∷ ("dev-fill-catvton", "black-forest-labs/FLUX.1-Fill-dev")
    ∷ ("flux2-klein-4b", "black-forest-labs/FLUX.2-klein-4B")
    ∷ ("flux2-klein", "black-forest-labs/FLUX.2-klein-4B")
    ∷ ("flux2-klein-9b", "black-forest-labs/FLUX.2-klein-9B")
    ∷ ("z-image-turbo", "Tongyi-MAI/Z-Image-Turbo")
    ∷ ("z-image", "Tongyi-MAI/Z-Image")
    ∷ ("qwen-image", "Qwen/Qwen-Image-2512")
    ∷ ("fibo", "briaai/FIBO")
    ∷ ("krea-2", "krea/Krea-2-Turbo")
    ∷ ("krea2", "krea/Krea-2-Turbo")
    ∷ ("ernie-image", "baidu/ERNIE-Image")
    ∷ ("ernie-image-turbo", "baidu/ERNIE-Image-Turbo")
    ∷ ("lens-turbo", "Comfy-Org/Lens")
    ∷ ("boogu", "Boogu/Boogu-Image-0.1-Turbo")
    ∷ ("ideogram-4", "ideogram-ai/ideogram-4-fp8")
    ∷ []

-- PROVIDER_PREFIXES of harness/gateway.py
abbrev pub provider_prefixes : List String
provider_prefixes = "openai/" ∷ "hosted_vllm/" ∷ "ollama/" ∷ "anthropic/" ∷ []
