-- ===== src/Types/Names.antt =====
-- The constants of pkg/types/tensor_metadata.go and pkg/types/task_contract.go: keys of the metadata, MIME
-- types, and the names of tasks, services and preprocessing steps.
use lumen_sdk.Base.Text.{Text, codes}

abbrev pub meta_input_kind : Text
meta_input_kind = codes "lumen.input.kind"

abbrev pub meta_tensor_d_type : Text
meta_tensor_d_type = codes "lumen.tensor.dtype"

abbrev pub meta_tensor_shape : Text
meta_tensor_shape = codes "lumen.tensor.shape"

abbrev pub meta_tensor_layout : Text
meta_tensor_layout = codes "lumen.tensor.layout"

abbrev pub meta_tensor_format : Text
meta_tensor_format = codes "lumen.tensor.format"

abbrev pub meta_tensor_byte_order : Text
meta_tensor_byte_order = codes "lumen.tensor.byte_order"

abbrev pub meta_preprocess_id : Text
meta_preprocess_id = codes "lumen.preprocess.id"

abbrev pub meta_preprocess_skip : Text
meta_preprocess_skip = codes "lumen.preprocess.skip"

abbrev pub meta_model_id : Text
meta_model_id = codes "lumen.model.id"

abbrev pub meta_model_version : Text
meta_model_version = codes "lumen.model.version"

abbrev pub meta_output_kind : Text
meta_output_kind = codes "lumen.output.kind"

abbrev pub meta_output_tensor_d_type : Text
meta_output_tensor_d_type = codes "lumen.output.tensor.dtype"

abbrev pub meta_output_tensor_shape : Text
meta_output_tensor_shape = codes "lumen.output.tensor.shape"

abbrev pub meta_output_tensor_layout : Text
meta_output_tensor_layout = codes "lumen.output.tensor.layout"

abbrev pub meta_output_tensor_format : Text
meta_output_tensor_format = codes "lumen.output.tensor.format"

abbrev pub meta_output_tensor_byte_order : Text
meta_output_tensor_byte_order = codes "lumen.output.tensor.byte_order"

abbrev pub default_tensor_mime : Text
default_tensor_mime = codes "application/octet-stream"

abbrev pub task_semantic_text_embed : Text
task_semantic_text_embed = codes "semantic_text_embed"

abbrev pub task_semantic_image_embed : Text
task_semantic_image_embed = codes "semantic_image_embed"

abbrev pub task_bioclip_classify : Text
task_bioclip_classify = codes "bioclip_classify"

abbrev pub task_ocr : Text
task_ocr = codes "ocr"

abbrev pub task_face_recognition : Text
task_face_recognition = codes "face_recognition"

abbrev pub service_bioclip : Text
service_bioclip = codes "bioclip"

abbrev pub service_siglip : Text
service_siglip = codes "siglip"

abbrev pub preprocess_bioclip_224_image : Text
preprocess_bioclip_224_image = codes "bioclip2_224_image_v1"

abbrev pub preprocess_siglip_2_base_patch_16_224_image : Text
preprocess_siglip_2_base_patch_16_224_image = codes "siglip2_base_patch16_224_image_v1"

abbrev pub preprocess_siglip_2_so_400m_patch_14_384_image : Text
preprocess_siglip_2_so_400m_patch_14_384_image = codes "siglip2_so400m_patch14_384_image_v1"

abbrev pub preprocess_ppocr_detection : Text
preprocess_ppocr_detection = codes "ppocr_det_v1"

abbrev pub preprocess_insight_face_det : Text
preprocess_insight_face_det = codes "insightface_det_v1"

abbrev pub meta_service : Text
meta_service = codes "service"

abbrev pub meta_source_width : Text
meta_source_width = codes "lumen.source.width"

abbrev pub meta_source_height : Text
meta_source_height = codes "lumen.source.height"

abbrev pub meta_letterbox_scale : Text
meta_letterbox_scale = codes "lumen.letterbox.scale"

abbrev pub meta_letterbox_pad_x : Text
meta_letterbox_pad_x = codes "lumen.letterbox.pad_x"

abbrev pub meta_letterbox_pad_y : Text
meta_letterbox_pad_y = codes "lumen.letterbox.pad_y"

abbrev pub deprecated_tensor_json_mime : Text
deprecated_tensor_json_mime = codes "application/vnd.lumen.tensor+json"

abbrev pub service_ocr : Text
service_ocr = codes "ocr"

abbrev pub service_face : Text
service_face = codes "face"

abbrev pub meta_top_k : Text
meta_top_k = codes "top_k"
