-- ===== src/Trace/Api.antt =====
-- The APIs of a client, from source/trace/inc/dev_trace_common.h.
use radeon_developer_panel.Common.{
  Bool, true, false, ◌&&◌, ◌||◌, [], ◌∷◌, Option, none, some, ◌==◌, if◌then◌else◌, Bytes, codes,
}

-- `kCount` is the number of the others.
pub data Api : Type 0 where
  unknown direct_x12 direct_x11 direct_x9 vulkan open_cl hip open_gl count : Api

abbrev starts_with : Bytes → Bytes → Bool
starts_with [] s = true
starts_with (c ∷ p) [] = false
starts_with (c ∷ p) (d ∷ s) = c == d && starts_with p s

-- `text.find(part) != npos`.
abbrev pub contains_text : Bytes → Bytes → Bool
contains_text part [] = starts_with part []
contains_text part (c ∷ s) = starts_with part (c ∷ s) || contains_text part s

unfoldable pub get_api_from_driver_description : Option Bytes → Api
get_api_from_driver_description none = Api.unknown
get_api_from_driver_description (some s) =
    if contains_text (codes "DirectX12") s
    then Api.direct_x12
    else if contains_text (codes "DirectX10/11") s
    then Api.direct_x11
    else if contains_text (codes "DirectX9") s
    then Api.direct_x9
    else if contains_text (codes "Vulkan") s
    then Api.vulkan
    else if contains_text (codes "OpenCL") s
    then Api.open_cl
    else if contains_text (codes "HIP") s
    then Api.hip
    else if contains_text (codes "OpenGL") s
    then Api.open_gl
    else Api.unknown
